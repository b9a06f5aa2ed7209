-- ===== src/Storage/Keeps.antt =====
-- Invariants of the server, kept by requests and by what is composed of them, whatever becomes of
-- the connection. No code is translated here.
use apex_leaderboard.Prelude.{List, [], ◌∷◌, All, if_either}
use apex_leaderboard.Prelude.Text.{Text}
use apex_leaderboard.Prelude.Exec.{Result, ok, err, Stable}
use apex_leaderboard.Platform.{Platform, Kind}
use apex_leaderboard.Redis.{Server, ServerError, Script, admits, store, update, query, exists_key}
use apex_leaderboard.Storage.Client.{
  Turn, World, Store, Fate, delivered, lost_request, lost_reply, answer, travel, call, call_on,
  run_all, exec_pipe,
}

module _ (P : Platform) (I : Server P → Type 0) where
  -- What others do between the requests of this client keeps the invariant.
  abbrev pub Friendly : List (Turn P) → Type 0
  Friendly = All (λ t. (s : Server P) → I s → I (t.others s))

  abbrev pub Holds : World P → Type 0
  Holds w = I w.server × Friendly w.link

  abbrev pub Keeps : {A : Type 0} → Script P A → Type 0
  Keeps m = Stable I m

  abbrev pub Respects : {A : Type 0} → Store P A → Type 0
  Respects m = Stable Holds m

  module _ {A : Type 0} where
    answer-Holds :
        (r : Result ServerError A × Server P) (rest : List (Turn P))
        → I r.1
        → Friendly rest
        → Holds (answer r rest).1
    answer-Holds (ok a, s) rest h f = (h, f)
    answer-Holds (err e, s) rest h f = (h, f)

    travel-Holds :
        (m : Script P A) (fate : Fate) (s : Server P) (rest : List (Turn P))
        → Keeps m
        → I s
        → Friendly rest
        → Holds (travel fate m s rest).1
    travel-Holds m delivered s rest k h f = answer-Holds (m s) rest (k.keeps s h) f
    travel-Holds m lost_request s rest k h f = (h, f)
    travel-Holds m lost_reply s rest k h f = (k.keeps s h, f)

    call_on-Holds :
        (m : Script P A) (l : List (Turn P)) (s : Server P)
        → Keeps m
        → I s
        → Friendly l
        → Holds (call_on l m s).1
    call_on-Holds m [] s k h f = answer-Holds (m s) [] (k.keeps s h) tt
    call_on-Holds m (t ∷ rest) s k h f = travel-Holds m t.fate (t.others s) rest k (f.0 s h) f.1

    -- A request that keeps the invariant keeps it whether or not it or its reply is lost.
    pub call-Respects : (m : Script P A) → Keeps m → Respects (call m)
    call-Respects m k = record { keeps = λ w h. call_on-Holds m w.link w.server k h.0 h.1 }

  pub run_all-Keeps :
      {A : Type 0} (ms : List (Script P A)) → All (λ m. Keeps m) ms → Keeps (run_all ms)
  run_all-Keeps [] k = record { keeps = λ s h. h }
  run_all-Keeps (m ∷ ms) k = record {
    keeps = λ s h. (run_all-Keeps ms k.1).keeps (m s).1 (k.0.keeps s h);
  }

  pub exec_pipe-Respects :
      {A : Type 0} (ms : List (Script P A)) → All (λ m. Keeps m) ms → Respects (exec_pipe ms)
  exec_pipe-Respects [] k = record { keeps = λ w h. h }
  exec_pipe-Respects (m ∷ ms) k = call-Respects (run_all (m ∷ ms)) (run_all-Keeps (m ∷ ms) k)

  pub update-Keeps :
      (want : Kind) (key : Text) (f : P.Value → P.Value)
      → ((s : Server P) → I s → I (store key (f (s.at key)) s))
      → Keeps (update P want key f)
  update-Keeps want key f k = record {
    keeps = λ s h.
        if_either (λ (x : Result ServerError (Unit {0}) × Server P). I x.1)
          (admits want (P.kind (s.at key))) (k s h) h;
  }

  pub query-Keeps :
      {A : Type 0} (want : Kind) (key : Text) (f : P.Value → A) → Keeps (query P want key f)
  query-Keeps want key f = record { keeps = λ s h. h }

  pub exists_key-Keeps : (key : Text) → Keeps (exists_key P key)
  exists_key-Keeps key = record { keeps = λ s h. h }
