-- ===== src/ApiScripts/Walk.antt =====
-- apiscripts/apiwalk/main.go: a walk over the whole API that prints what it is answered. The output
-- is a text that each call adds to; resty, the JSON decoder and strings.TrimSpace are parameters.
pub mod Colors
use apex_leaderboard.Prelude.{
  ℕ, List, [], ◌∷◌, ◌++◌, Option, none, some, Bool, true, false, not, ◌==◌, ◌&&◌, ◌≡◌, refl, arith,
  leb, ltb, if◌then◌else◌, All, ap, sym, ◌∙◌,
}
use apex_leaderboard.Prelude.Int.{ℤ, pos}
use apex_leaderboard.Prelude.Text.{Text, codes, text_eq, Lacks}
use apex_leaderboard.Prelude.Exec.{Result, ok, err}
use apex_leaderboard.Decimal.{format_nat}
use apex_leaderboard.Decimal.RoundTrip.{format_nat-Lacks}
use apex_leaderboard.ApiScripts.{RequestBody, Field, text, number}

-- A decoded body, in the cases that jsonField tells apart; a key that an object lacks is `other`.
pub data Json : Type 0 where
  string : Text → Json
  object : (Text → Json) → Json
  other : Json

pub record Api : Type 1 where
  pub State : Type 0
  -- Execute, by the method, the path, the body and the Idempotency-Key, "" for none
  pub execute : Text → Text → RequestBody → Text → State → Result Text (ℕ × Text) × State
  pub decode : Text → Option Json
  pub trim_space : Text → Text

abbrev ansi : Text → Text
ansi code = 27 ∷ 91 ∷ code ++ codes "m"

abbrev ansi_reset : Text
ansi_reset = ansi (codes "0")

abbrev ansi_bold : Text
ansi_bold = ansi (codes "1")

abbrev ansi_red : Text
ansi_red = ansi (codes "31")

abbrev ansi_green : Text
ansi_green = ansi (codes "32")

abbrev ansi_yellow : Text
ansi_yellow = ansi (codes "33")

abbrev ansi_cyan : Text
ansi_cyan = ansi (codes "36")

abbrev ansi_gray : Text
ansi_gray = ansi (codes "37")

-- `useColor`, by the variable NO_COLOR and whether standard output is a terminal
unfoldable pub use_color : Text → Text → Bool → Bool
use_color mode no_color terminal =
    if text_eq mode (codes "always")
    then true
    else if text_eq mode (codes "never")
    then false
    else text_eq no_color [] && terminal

unfoldable pub paint : Bool → Text → Text → Text
paint color code s = if color then code ++ (s ++ ansi_reset) else s

unfoldable pub status_color : ℕ → Text
status_color code =
    if leb 500 code
    then ansi_red
    else if leb 400 code
    then ansi_yellow
    else if leb 200 code && ltb code 300
    then ansi_green
    else ansi_gray

unfoldable pub field_of : Json → List Text → Text
field_of (string s) [] = s
field_of (object m) [] = []
field_of other [] = []
field_of (object m) (key ∷ keys) = field_of (m key) keys
field_of (string s) (key ∷ keys) = []
field_of other (key ∷ keys) = []

abbrev newline : Text
newline = 10 ∷ []

-- `step`
unfoldable pub title_text : Bool → Text → Text
unfolding paint
title_text color title = newline ++ (paint color (ansi_bold ++ ansi_cyan) title ++ newline)

abbrev request_line : Text → Text → Text
request_line method path = method ++ (32 ∷ path)

abbrev key_text : Bool → Text → Text
key_text color key =
    if text_eq key []
    then []
    else paint color ansi_gray (codes "Idempotency-Key: " ++ key) ++ newline

abbrev body_text : Text → Text
body_text trimmed = if text_eq trimmed [] then [] else trimmed ++ newline

module _ (A : Api) where
  -- The lines on the answer.
  unfoldable pub answer_text : Bool → Text → Text → Result Text (ℕ × Text) → Text
  unfolding paint status_color
  answer_text color method path (err e) =
      paint color ansi_red (codes "ERROR")
      ++ (32 ∷ paint color ansi_red (request_line method path ++ (codes ": " ++ e)) ++ newline)
  answer_text color method path (ok (status, body)) =
      paint color (status_color status) (codes "HTTP " ++ format_nat status)
      ++ (32 ∷ paint color ansi_gray (request_line method path)
          ++ (newline ++ body_text (A.trim_space body)))

  abbrev response_of : Result Text (ℕ × Text) → Option Text
  response_of (err e) = none
  response_of (ok (status, body)) = some body

  -- `callWithKey`: the response if any, what was printed, and the state behind it.
  unfoldable pub call_with_key :
      Bool → Text → Text → RequestBody → Text → A.State → Option Text × Text × A.State
  unfolding answer_text
  call_with_key color method path body key s =
      let (answer, s') = A.execute method path body key s in
      (response_of answer, key_text color key ++ answer_text color method path answer, s')

  unfoldable pub json_field : Option Text → List Text → Text
  unfolding field_of
  json_field none keys = []
  json_field (some body) keys = elim (A.decode body) [ none ↦ [] | some node ↦ field_of node keys ]

  -- The walk so far: its state and what it printed.
  abbrev Walk : Type 0
  Walk = Text × A.State

  pub data Step : Type 0 where
    titled : Text → Step
    request : Text → Text → RequestBody → Text → Step

  abbrev after : Text → Option Text × Text × A.State → Walk
  after printed (response, out, s) = (printed ++ out, s)

  -- It never aborts.
  unfoldable pub run_steps : Bool → List Step → Walk → Walk
  unfolding call_with_key title_text
  run_steps color [] w = w
  run_steps color (titled title ∷ steps) (printed, s) =
      run_steps color steps (printed ++ title_text color title, s)
  run_steps color (request method path body key ∷ steps) (printed, s) =
      run_steps color steps (after printed (call_with_key color method path body key s))

  abbrev get : Text → Step
  get path = request (codes "GET") path none []

  abbrev post : Text → Step
  post path = request (codes "POST") path none []

  abbrev amount : ℕ → RequestBody
  amount n = some ((codes "amount", number (pos n)) ∷ [])

  abbrev player_score : ℕ → RequestBody
  player_score n = some ((codes "player_score", number (pos n)) ∷ [])

  -- The UTF-8 bytes of the two signs
  abbrev tree : Text
  tree = 240 ∷ 159 ∷ 140 ∷ 179 ∷ []

  abbrev pedestrian : Text
  pedestrian = 240 ∷ 159 ∷ 154 ∷ 182 ∷ []

  -- The steps behind the creation of the player; `key` has the run's stamp in it. A board id is
  -- quoted as it stands.
  unfoldable pub steps_of : Text → Text → (Text → Text) → List Step
  steps_of board_id player_id key =
      let board = codes "/api/v1/boards/" ++ board_id in
      let scores = board ++ codes "/scores" in
      let player = codes "/api/v1/players/" ++ player_id in
      let standing = scores ++ (codes "/" ++ player_id) in
      let admin = codes "/api/v1/admin/boards/" ++ (board_id ++ codes "/projection") in
      titled (codes "GET player")
      ∷ get player
      ∷ titled (
          codes "PUT create board "
          ++ (34 ∷ board_id ++ (34 ∷ codes " (201 first run, then 409 - already exists)")))
      ∷ request (codes "PUT") board
          (some ((codes "board_name", text (codes "Demo Cup " ++ tree)) ∷ [])) []
      ∷ titled (codes "GET boards list (creation order)")
      ∷ get (codes "/api/v1/boards")
      ∷ titled (codes "GET board (status: active)")
      ∷ get board
      ∷ titled (codes "PUT set score = 100 (first write enrolls the player on the board)")
      ∷ request (codes "PUT") standing (player_score 100) (key (codes "set"))
      ∷ titled (codes "POST increment by 5 (100 -> 105)")
      ∷ request (codes "POST") (standing ++ codes "/increment") (amount 5) (key (codes "increment"))
      ∷ titled (codes "POST increment retried with the SAME Idempotency-Key (no-op, stays 105)")
      ∷ request (codes "POST") (standing ++ codes "/increment") (amount 5) (key (codes "increment"))
      ∷ titled (codes "POST increment reusing that key with a different amount -> 409")
      ∷ request (codes "POST") (standing ++ codes "/increment") (amount 7) (key (codes "increment"))
      ∷ titled (codes "GET leaderboard")
      ∷ get (scores ++ codes "?limit=10")
      ∷ titled (codes "GET single standing (score + 1-based rank)")
      ∷ get standing
      ∷ titled (
          codes
            "GET history (the ledger, newest first: the set + the increment, retry recorded once)")
      ∷ get (standing ++ codes "/history")
      ∷ titled (codes "GET global event feed (oldest first; 0-0 reads from the beginning)")
      ∷ get (codes "/api/v1/events?after=0-0&limit=10")
      ∷ titled (codes "POST close board")
      ∷ post (board ++ codes "/close")
      ∷ titled (codes "GET board (status: closed)")
      ∷ get board
      ∷ titled (codes "PUT score on closed board -> 409, no event recorded")
      ∷ request (codes "PUT") standing (player_score 999) []
      ∷ titled (codes "GET leaderboard still readable while closed")
      ∷ get scores
      ∷ titled (codes "POST reopen board")
      ∷ post (board ++ codes "/open")
      ∷ titled (codes "POST increment works again (105 -> 106)")
      ∷ request (codes "POST") (standing ++ codes "/increment") (amount 1)
          (key (codes "reopen-increment"))
      ∷ titled (codes "GET admin verify projection (empty mismatches means no drift)")
      ∷ get (admin ++ codes "/verify")
      ∷ titled (codes "POST admin rebuild projection from this board's ledger events")
      ∷ post (admin ++ codes "/rebuild")
      ∷ titled (codes "GET admin verify projection after rebuild")
      ∷ get (admin ++ codes "/verify")
      ∷ []

  -- `main` behind its flags, with the name of the player
  unfoldable pub walk : Bool → Text → Text → (Text → Text) → A.State → Walk
  unfolding call_with_key title_text run_steps steps_of json_field
  walk color board_id name key s =
      let (printed, s1) =
        run_steps color (titled (codes "Root") ∷ get (codes "/") ∷ []) (pedestrian ++ tree, s) in
      let title = title_text color (codes "POST create player (id is server-generated)") in
      let (created, out, s2) =
        call_with_key color (codes "POST") (codes "/api/v1/players")
          (some ((codes "player_name", text name) ∷ [])) (key (codes "player")) s1 in
      let player_id = json_field created (codes "player" ∷ codes "player_id" ∷ []) in
      run_steps color (steps_of board_id player_id key) (printed ++ (title ++ out), s2)
