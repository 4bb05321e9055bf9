-- ===== src/Observe/Render.antt =====
-- The tables of src/peer_observe.py for people. `p` is `str.isprintable` of a character, `other` the text
-- of a value that is no plain one.
use Prim.Native.String.{◌++◌, compare as compare_texts}
use Prim.Native.Nat.{◌/◌, Ordering}
use peer_chat.Base.{
  ℕ, String, Bool, true, false, not, ◌&&◌, ◌||◌, Option, none, some, List, [], ◌∷◌,
  ◌++◌ as join_lists, map, if◌then◌else◌, ltb, nat_eq, any, select, length, is_some,
}
use peer_chat.Base.Int.{ℤ, pos, negsuc}
use peer_chat.Base.Json.{
  Value, null, int, str, obj, Fields, lookup, member, is_obj, is_text, truthy, or_else,
}
use peer_chat.Base.Text.{prefix, rstrip, is_uuid}
use peer_chat.Base.Format.{join_with, ljust, decimal, show}
use peer_chat.Observe.Shown.{
  RuntimeState, runtime_name, shown_delivery, WakeSource, Row, wake_effective, wake_source,
}
use peer_chat.Observe.Snapshot.{Context, Files, Database, snapshot}
use peer_chat.Observe.Warning.{filled}
use peer_chat.Observe.Clean.{sanitize}

-- An age: seconds below 90, minutes below 5400, hours.
unfoldable pub age_text : ℕ → String
age_text age =
    if ltb age 90
    then decimal age ++ "s"
    else if ltb age 5400
    then decimal (age / 60) ++ "m"
    else decimal (age / 3600) ++ "h"

-- `wake == rem`, of allowances.
abbrev same_int : ℤ → ℤ → Bool
same_int (pos n) (pos k) = nat_eq n k
same_int (negsuc n) (negsuc k) = nat_eq n k
same_int _ _ = false

abbrev same_allowance : Value → Value → Bool
same_allowance (int n) (int k) = same_int n k
same_allowance (str s) v = is_text v s
same_allowance _ v = false

abbrev is_legacy : Row → Bool
is_legacy r = elim (wake_source r) [
  | none ↦ false
  | some WakeSource.legacy_fallback ↦ true
  | some WakeSource.explicit ↦ false
]

-- `_pending_age_cell`
unfoldable pub pending_age_cell : Row → String
unfolding age_text
pending_age_cell r = elim r.oldest_pending_age [ none ↦ "-" | some age ↦ age_text age ]

-- `_phase_cell`
abbrev phase_cell : Row → String
phase_cell r = r.phase ++ (if r.evidence_stale then "?" else "")

-- A column: its head, its width, and how much of the end of a cell stays.
pub record Column : Type 0 where
  pub head : String
  pub width : ℕ
  pub tail : ℕ

infixr 66 ◌when◌
abbrev ◌when◌ : Bool → List String → List String
true when lines = lines
false when lines = []

module _ (p : ℕ → Bool) (other : Value → String) where
  abbrev base_cell : Value → Value → String
  base_cell null limit = "-"
  base_cell (int n) (int k) = show other (int n) ++ ("/" ++ show other (int k))
  base_cell rem limit = show other rem

  -- `_budget_cell`
  unfoldable pub budget_cell : Row → String
  budget_cell r =
      let base = base_cell r.remaining r.budget_limit in
      elim (wake_effective r) [
        | null ↦ base
        | wake ↦
            if same_allowance wake r.remaining && not (is_legacy r)
            then base
            else base ++ (" w" ++ (show other wake ++ (if is_legacy r then "~" else "")))
      ]

  -- `_hook_cell`
  unfoldable pub hook_cell : Row → String
  unfolding age_text
  hook_cell r = elim r.hook_seen [
    | none ↦ "none"
    | some seen ↦
        let age : String = elim r.hook_age [ none ↦ "?" | some t ↦ age_text t ] in
        let routed = if is_text (member seen "routing") "matched" then "ok" else "rej" in
        show other (or_else (member seen "event") (str "?")) ++ (" " ++ (age ++ (" " ++ routed)))
  ]

  abbrev head_cells : List Column → List String
  head_cells columns = map (λ c. ljust c.width c.head) columns

  unfoldable pub line_cells : List Column → List String → List String
  line_cells [] cells = []
  line_cells (c ∷ cs) [] = []
  line_cells (c ∷ cs) (x ∷ xs) = ljust c.width (sanitize p c.width c.tail x) ∷ line_cells cs xs

  -- `_table`
  unfoldable pub table : List Column → List (List String) → String
  unfolding line_cells
  table columns rows = join_with "\n" (
      rstrip (join_with "  " (head_cells columns))
      ∷ map (λ cells. rstrip (join_with "  " (line_cells columns cells))) rows)

  abbrev column : String → ℕ → ℕ → Column
  column head width tail = record { head = head; width = width; tail = tail }

  abbrev status_columns : List Column
  status_columns =
      column "NAME" 28 9
      ∷ column "THREAD" 8 0
      ∷ column "RUNTIME" 13 0
      ∷ column "DELIVERY" 25 0
      ∷ column "PENDING" 7 0
      ∷ column "OLDEST" 7 0
      ∷ column "BUDGET" 11 0
      ∷ column "PHASE" 8 0
      ∷ column "HOOK" 20 0
      ∷ []

  abbrev status_cells : Row → List String
  status_cells r =
      r.name
      ∷ prefix 8 r.thread
      ∷ runtime_name r.runtime_state
      ∷ shown_delivery r.delivery_state
      ∷ decimal r.pending_count
      ∷ pending_age_cell r
      ∷ budget_cell r
      ∷ phase_cell r
      ∷ hook_cell r
      ∷ []

  -- The warnings below the table.
  unfoldable pub warning_lines : List Row → List String
  warning_lines [] = []
  warning_lines (r ∷ rest) =
      let others = warning_lines rest in
      elim (filled r.warning) [
        | none ↦ others
        | some w ↦
            ("! "
              ++ (sanitize p 28 9 r.name
                  ++ (" (" ++ (prefix 8 r.thread ++ ("): " ++ sanitize p 1000 0 w)))))
            ∷ others
      ]

  abbrev hidden_line : List Row → String
  hidden_line hidden =
      decimal (length hidden)
      ++ (" orphan state director"
          ++ ((if nat_eq (length hidden) 1 then "y" else "ies")
              ++ (" hidden (no config, no messages): "
                  ++ (join_with ", " (map (λ r. sanitize p 0 0 (prefix 8 r.thread)) hidden)
                      ++ "; run with --all to list"))))

  -- The notes below the warnings.
  unfoldable pub footer_lines : List Row → List Row → List String
  footer_lines shown hidden =
      let stale =
        any (λ r. r.evidence_stale) shown
        when ("? = last known phase/hook from before the listener stopped" ∷ []) in
      let legacy =
        any is_legacy shown
        when ("~ = wake allowance follows the delivery budget (no separate wake window configured)"
            ∷ []) in
      let orphans = not (nat_eq (length hidden) 0) when (hidden_line hidden ∷ []) in
      join_lists stale (join_lists legacy orphans)

  abbrev below : List String → String
  below [] = ""
  below (x ∷ xs) = "\n" ++ join_with "\n" (x ∷ xs)

  -- `render_status`
  unfoldable pub render_status : Bool → List Row → String
  unfolding table warning_lines footer_lines
  render_status show_orphans [] = "No bridges saved."
  render_status show_orphans (r ∷ rs) =
      let shown = select (λ x. show_orphans || not x.orphan) (r ∷ rs) in
      let hidden = select (λ x. not show_orphans && x.orphan) (r ∷ rs) in
      let text =
        if nat_eq (length shown) 0
        then "No bridges saved."
        else table status_columns (map status_cells shown) in
      text ++ (below (warning_lines shown) ++ below (footer_lines shown hidden))

  -- The last column of `render_sessions`.
  unfoldable pub session_delivery : Fields → Value
  session_delivery r =
      let row = obj r in
      if truthy (member row "delivery_state")
      then member row "delivery_state"
      else if is_obj (member row "bridge")
      then str (
          if truthy (member (member row "bridge") "runtime_alive")
          then "unknown"
          else "listener_down")
      else if is_some (lookup "runtime_state" r)
      then member row "runtime_state"
      else str (
          if is_text (or_else (member row "kind") (str "codex")) "claude"
          then "native_unconfirmed"
          else "not_connected")

  -- `str(x)` for `sanitize`, which shows None as nothing.
  abbrev cell_text : Value → String
  cell_text null = ""
  cell_text v = show other v

  unfoldable pub session_cells : Fields → List String
  unfolding session_delivery
  session_cells r =
      let row = obj r in
      let kind = or_else (member row "kind") (str "codex") in
      let source = or_else (member row "source") (or_else (member row "runtime_state") (str "-")) in
      let ident = or_else (member row "thread") (or_else (member row "id") (str "")) in
      let pid =
        or_else (member row "pid")
          (or_else (member row "owner_pid") (or_else (member row "runtime_pid") (str "-"))) in
      let first =
        if truthy (member row "initialization_required") then " (needs first prompt)" else "" in
      cell_text (member row "name")
      ∷ prefix 8 (show other ident)
      ∷ show other pid
      ∷ (show other kind ++ ("/" ++ show other source))
      ∷ (show other (or_else (member row "phase") (str "-")) ++ first)
      ∷ cell_text (session_delivery r)
      ∷ []

  abbrev session_columns : List Column
  session_columns =
      column "NAME" 28 9
      ∷ column "THREAD" 8 0
      ∷ column "PID" 8 0
      ∷ column "KIND/SOURCE" 20 0
      ∷ column "PHASE" 26 0
      ∷ column "DELIVERY" 25 0
      ∷ []

  -- `render_sessions`
  unfoldable pub render_sessions : List Fields → String
  unfolding table session_cells
  render_sessions [] = "No sessions found."
  render_sessions (r ∷ rs) = table session_columns (map session_cells (r ∷ rs))

-- `snapshots`: an entry of the state directory, with what `snapshot` reads of it.
pub record Entry : Type 0 where
  pub thread : String
  pub is_directory : Bool
  pub files : Files
  pub registered : Option String
  pub database : Database

abbrev order : RuntimeState → ℕ
order RuntimeState.running = 0
order RuntimeState.listener_down = 1
order RuntimeState.owner_offline = 2
order RuntimeState.stopped = 3
order RuntimeState.unconfigured = 4
order RuntimeState.unreadable = 5

abbrev text_before : String → String → Bool → Bool
text_before s t tie = elim (compare_texts s t) [
  | Ordering.lt ↦ true
  | Ordering.eq ↦ tie
  | Ordering.gt ↦ false
]

-- `lower` is `str.lower`.
abbrev row_before : (String → String) → Row → Row → Bool
row_before lower a b =
    ltb (order a.runtime_state) (order b.runtime_state)
    || (nat_eq (order a.runtime_state) (order b.runtime_state)
        && text_before (lower a.name) (lower b.name) (text_before a.thread b.thread true))

unfoldable pub place_row : (String → String) → Row → List Row → List Row
place_row lower r [] = r ∷ []
place_row lower r (x ∷ xs) =
    let rest = place_row lower r xs in if row_before lower r x then r ∷ x ∷ xs else x ∷ rest

unfoldable pub snapshots : (String → String) → Context → List Entry → List Row
unfolding place_row
snapshots lower c [] = []
snapshots lower c (e ∷ es) =
    let rest = snapshots lower c es in
    if not (is_uuid e.thread && e.is_directory)
    then rest
    else elim (snapshot c e.files e.registered e.database e.thread) [
      | none ↦ rest
      | some row ↦ place_row lower row rest
    ]
