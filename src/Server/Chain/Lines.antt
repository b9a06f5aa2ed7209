-- ===== src/Server/Chain/Lines.antt =====
-- What the log says of a request is what went out.
use apex_leaderboard.Prelude.{
  ℕ, ◌+◌, List, [], ◌∷◌, ◌++◌, Option, none, some, Bool, true, false, ◌≡◌, refl, arith,
  if◌then◌else◌, Bool-cases, inl, inr, if_either, sym, ◌⊎◌,
}
use mathlib.Core.Path.{subst}
use apex_leaderboard.Prelude.Text.{Text, codes, text_eq}
use apex_leaderboard.Server.RateLimit.{
  RateLib, Clients, Verdict, allowed, rate_limited, too_many_clients, allow, reject_status,
}
use apex_leaderboard.Server.Middleware.{
  Call, write_header, write, StatusRecorder, new_recorder, recorder_write_header, recorder_write,
  perform, Panic, abort_handler, other_panic, Run, recover_run, log_level,
}
use apex_leaderboard.Server.Middleware.Responses.{
  committed_status, first_status, first_status-IsFinal, written_bytes, IsFinal, is_informational,
}
use apex_leaderboard.Server.RequestIds.{with_id, log_attrs, from_context}
use apex_leaderboard.Server.Chain.{
  Request, HttpHandler, RequestLine, Served, logging_middleware, limiter_middleware, limited, serve,
}

abbrev begun : List Call → Bool
begun [] = false
begun (c ∷ cs) = true

-- The recorder knows the first status, the bytes, and whether anything went on.
abbrev IsFaithful : StatusRecorder → Type 0
IsFaithful r =
    (r.status ≡ first_status r.inner)
    × (r.bytes ≡ written_bytes r.inner)
    × (r.wrote_header ≡ begun r.inner)

first_status-append :
    (cs : List Call) (c : Call) → begun cs ≡ true → first_status (cs ++ c ∷ []) ≡ first_status cs
first_status-append [] c h = absurd (cc)
first_status-append (write_header code ∷ cs) c h = refl
first_status-append (write n ∷ cs) c h = refl

written_bytes-append :
    (cs : List Call) (c : Call)
    → written_bytes (cs ++ c ∷ []) ≡ written_bytes cs + written_bytes (c ∷ [])
written_bytes-append [] c = ground arith
written_bytes-append (write_header code ∷ cs) c = written_bytes-append cs c
written_bytes-append (write n ∷ cs) c = omega (arith, written_bytes-append cs c)

begun-append : (cs : List Call) (c : Call) → begun (cs ++ c ∷ []) ≡ true
begun-append [] c = refl
begun-append (d ∷ cs) c = refl

empty_of_not_begun : (cs : List Call) → begun cs ≡ false → cs ≡ []
empty_of_not_begun [] h = refl
empty_of_not_begun (c ∷ cs) h = absurd (cc)

recorder_write_header-IsFaithful :
    (code : ℕ) (r : StatusRecorder) → IsFaithful r → IsFaithful (recorder_write_header code r)
unfolding recorder_write_header
recorder_write_header-IsFaithful code r h = ground (
  arith,
  first_status-append r.inner (write_header code),
  written_bytes-append r.inner (write_header code),
  begun-append r.inner (write_header code),
  empty_of_not_begun r.inner,
)

header_written :
    (code : ℕ) (r : StatusRecorder) → (recorder_write_header code r).wrote_header ≡ true
unfolding recorder_write_header
header_written code r = ground arith

begun_write :
    (n : ℕ) (r : StatusRecorder)
    → IsFaithful r
    → r.wrote_header ≡ true
    → IsFaithful (record r { bytes = r.bytes + n; inner = r.inner ++ write n ∷ [] })
begun_write n r h k = ground (
  arith,
  first_status-append r.inner (write n),
  written_bytes-append r.inner (write n),
  begun-append r.inner (write n),
)

recorder_write-IsFaithful :
    (n : ℕ) (r : StatusRecorder) → IsFaithful r → IsFaithful (recorder_write n r)
unfolding recorder_write
recorder_write-IsFaithful n r h = elim (Bool-cases r.wrote_header) [
  | inl e ↦
      subst
        (λ b. IsFaithful (record (if b then r else recorder_write_header 200 r) {
          bytes = (if b then r else recorder_write_header 200 r).bytes + n;
          inner = (if b then r else recorder_write_header 200 r).inner ++ write n ∷ [];
        }))
        (sym e) (begun_write n r h e)
  | inr e ↦
      subst
        (λ b. IsFaithful (record (if b then r else recorder_write_header 200 r) {
          bytes = (if b then r else recorder_write_header 200 r).bytes + n;
          inner = (if b then r else recorder_write_header 200 r).inner ++ write n ∷ [];
        }))
        (sym e)
        (begun_write n (recorder_write_header 200 r) (recorder_write_header-IsFaithful 200 r h)
          (header_written 200 r))
]

perform-IsFaithful :
    (cs : List Call) (r : StatusRecorder) → IsFaithful r → IsFaithful (perform cs r)
unfolding perform
perform-IsFaithful [] r h = h
perform-IsFaithful (write_header code ∷ cs) r h =
    perform-IsFaithful cs (recorder_write_header code r) (recorder_write_header-IsFaithful code r h)
perform-IsFaithful (write n ∷ cs) r h =
    perform-IsFaithful cs (recorder_write n r) (recorder_write-IsFaithful n r h)

recover_run-IsFaithful : (h : Run) → IsFaithful (recover_run h new_recorder).0
unfolding recover_run
recover_run-IsFaithful h = by_panic h.panic
  where
    fine : IsFaithful (perform h.calls new_recorder)
    fine = perform-IsFaithful h.calls new_recorder (refl, refl, refl)

    by_panic :
        (p : Option Panic)
        → IsFaithful
            (elim p as (λ _. StatusRecorder × Option Panic) [
              | none ↦ (perform h.calls new_recorder, none)
              | some abort_handler ↦ (perform h.calls new_recorder, some abort_handler)
              | some other_panic ↦ (
                if (perform h.calls new_recorder).wrote_header
                    then perform h.calls new_recorder
                    else recorder_write_header 500 (perform h.calls new_recorder),
                none,
              )
            ]).0
    by_panic none = fine
    by_panic (some abort_handler) = fine
    by_panic (some other_panic) =
        if_either IsFaithful (perform h.calls new_recorder).wrote_header fine
          (recorder_write_header-IsFaithful 500 (perform h.calls new_recorder) fine)

-- The line of a request that was answered with these calls.
abbrev pub line_of : Text → Request → List Call → RequestLine
line_of id req calls = record {
  attrs = (codes "request_id", id) ∷ [];
  level = log_level (committed_status calls);
  method = req.method;
  path = req.path;
  status = committed_status calls;
  bytes = written_bytes calls;
}

-- What goes on to net/http of a panic is the abort sentinel, and then no line is logged.
abbrev pub LogsWhatWentOut : Text → Request → Served → Type 0
LogsWhatWentOut id req out =
    (out.request_id ≡ id)
    × (((out.panic ≡ none) × (out.lines ≡ line_of id req out.calls ∷ []))
        ⊎ ((out.panic ≡ some abort_handler) × (out.lines ≡ [])))

only_abort :
    (h : Run)
    → ((recover_run h new_recorder).1 ≡ none)
      ⊎ ((recover_run h new_recorder).1 ≡ some abort_handler)
unfolding recover_run
only_abort h = by_panic h.panic
  where
    by_panic :
        (p : Option Panic)
        → let out : StatusRecorder × Option Panic =
            (elim p as (λ _. StatusRecorder × Option Panic) [
              | none ↦ (perform h.calls new_recorder, none)
              | some abort_handler ↦ (perform h.calls new_recorder, some abort_handler)
              | some other_panic ↦ (
                if (perform h.calls new_recorder).wrote_header
                    then perform h.calls new_recorder
                    else recorder_write_header 500 (perform h.calls new_recorder),
                none,
              )
            ]) in
          (out.1 ≡ none) ⊎ (out.1 ≡ some abort_handler)
    by_panic none = inl refl
    by_panic (some abort_handler) = inr refl
    by_panic (some other_panic) = inl refl

-- Only what a handler or the recovery writes goes on.
IsFinal-append : (cs ds : List Call) → IsFinal cs → IsFinal ds → IsFinal (cs ++ ds)
IsFinal-append [] ds h k = k
IsFinal-append (write_header code ∷ cs) ds h k = (h.0, IsFinal-append cs ds h.1 k)
IsFinal-append (write n ∷ cs) ds h k = IsFinal-append cs ds h k

recorder_write_header-IsFinal :
    (code : ℕ) (r : StatusRecorder)
    → is_informational code ≡ false
    → IsFinal r.inner
    → IsFinal (recorder_write_header code r).inner
unfolding recorder_write_header
recorder_write_header-IsFinal code r f h =
    let more = IsFinal-append r.inner (write_header code ∷ []) h (f, tt) in
    if_either (λ (x : StatusRecorder). IsFinal x.inner) r.wrote_header more more

recorder_write-IsFinal :
    (n : ℕ) (r : StatusRecorder) → IsFinal r.inner → IsFinal (recorder_write n r).inner
unfolding recorder_write
recorder_write-IsFinal n r h =
    let r' : StatusRecorder = if r.wrote_header then r else recorder_write_header 200 r in
    IsFinal-append r'.inner (write n ∷ [])
      (if_either (λ (x : StatusRecorder). IsFinal x.inner) r.wrote_header h
        (recorder_write_header-IsFinal 200 r refl h))
      tt

perform-IsFinal :
    (cs : List Call) (r : StatusRecorder)
    → IsFinal cs
    → IsFinal r.inner
    → IsFinal (perform cs r).inner
unfolding perform
perform-IsFinal [] r f h = h
perform-IsFinal (write_header code ∷ cs) r f h =
    perform-IsFinal cs (recorder_write_header code r) f.1
      (recorder_write_header-IsFinal code r f.0 h)
perform-IsFinal (write n ∷ cs) r f h =
    perform-IsFinal cs (recorder_write n r) f (recorder_write-IsFinal n r h)

recover_run-IsFinal : (h : Run) → IsFinal h.calls → IsFinal (recover_run h new_recorder).0.inner
unfolding recover_run
recover_run-IsFinal h f = by_panic h.panic
  where
    fine : IsFinal (perform h.calls new_recorder).inner
    fine = perform-IsFinal h.calls new_recorder f tt

    by_panic :
        (p : Option Panic)
        → IsFinal
            (elim p as (λ _. StatusRecorder × Option Panic) [
              | none ↦ (perform h.calls new_recorder, none)
              | some abort_handler ↦ (perform h.calls new_recorder, some abort_handler)
              | some other_panic ↦ (
                if (perform h.calls new_recorder).wrote_header
                    then perform h.calls new_recorder
                    else recorder_write_header 500 (perform h.calls new_recorder),
                none,
              )
            ]).0.inner
    by_panic none = fine
    by_panic (some abort_handler) = fine
    by_panic (some other_panic) =
        if_either (λ (x : StatusRecorder). IsFinal x.inner)
          (perform h.calls new_recorder).wrote_header fine
          (recorder_write_header-IsFinal 500 (perform h.calls new_recorder) refl fine)

line_lem :
    (id : Text) (req : Request) (out : StatusRecorder × Option Panic)
    → text_eq id [] ≡ false
    → IsFaithful out.0
    → IsFinal out.0.inner
    → (out.1 ≡ none) ⊎ (out.1 ≡ some abort_handler)
    → ((out.1 ≡ none)
        × (logging_middleware (record req { context = with_id req.context id }) out
            ≡ line_of id req out.0.inner ∷ []))
      ⊎ ((out.1 ≡ some abort_handler)
          × (logging_middleware (record req { context = with_id req.context id }) out ≡ []))
unfolding logging_middleware log_attrs from_context
line_lem id req (rec, p) named faithful final (inl e) = inl (
  e,
  rw (e, logging_middleware, named, faithful.0, faithful.1, first_status-IsFinal rec.inner final)
      refl,
)
line_lem id req (rec, p) named faithful final (inr e) = inr (e, rw (e, logging_middleware) refl)

-- A limiter's refusal is final, and so is what the mux does.
limited-IsFinal :
    (R : RateLib) (write_error : ℕ → List Call) (now : ℕ) (clients : Option (Clients R))
    (next : HttpHandler) (req : Request)
    → ((r : Request) → IsFinal (next r).calls)
    → IsFinal (write_error 429)
    → IsFinal (write_error 503)
    → IsFinal (limited R write_error now clients next req).calls
unfolding limiter_middleware reject_status
limited-IsFinal R write_error now none next req f g h = f req
limited-IsFinal R write_error now (some clients) next req f g h =
    by_verdict (allow R req.path req.remote_addr now clients).0
  where
    by_verdict :
        (v : Verdict)
        → IsFinal
            (elim (reject_status v) as (λ _. Run × Clients R) [
              | none ↦ (next req, (allow R req.path req.remote_addr now clients).1)
              | some status ↦ (
                record { calls = write_error status; panic = none },
                (allow R req.path req.remote_addr now clients).1,
              )
            ]).0.calls
    by_verdict allowed = f req
    by_verdict rate_limited = g
    by_verdict too_many_clients = h

-- Whatever the limiter says and whatever the mux does behind it, where neither writes an
-- informational status, the response carries the fresh id; unless the abort sentinel goes on to
-- net/http, one line is logged, with that id, the method and path of the request, the status that
-- net/http commits, the number of bytes that the writes behind it reported, and the level of that
-- status; no other panic goes on, and with the sentinel nothing is logged. The fresh id is not
-- empty.
pub serve-LogsWhatWentOut :
    (R : RateLib) (write_error : ℕ → List Call) (id : Text) (now : ℕ) (clients : Option (Clients R))
    (next : HttpHandler) (req : Request)
    → text_eq id [] ≡ false
    → ((r : Request) → IsFinal (next r).calls)
    → IsFinal (write_error 429)
    → IsFinal (write_error 503)
    → LogsWhatWentOut id req (serve R write_error id now clients next req)
unfolding serve
serve-LogsWhatWentOut R write_error id now clients next req named f g h =
    let req' : Request = record req { context = with_id req.context id } in
    let run = limited R write_error now clients next req' in
    (
      refl,
      line_lem id req (recover_run run new_recorder) named (recover_run-IsFaithful run)
          (recover_run-IsFinal run (limited-IsFinal R write_error now clients next req' f g h))
          (only_abort run),
    )
