-- ===== src/Notices/Once.antt =====
-- `notify` of src/peer_delivery.py, pass after pass.
use Prim.Native.String.{◌++◌ as text_append}
use peer_chat.Base.{
  and_first, and_second, ℕ, zero, suc, String, ◌≡◌, refl, ap, sym, ◌∙◌, Bool, true, false, not,
  ◌&&◌, Option, none, some, List, [], ◌∷◌, ◌++◌, arith, if◌then◌else◌, ◌==◌, select, take, All,
  All-map, Bool-cases, inl, inr, eq_iff, eq_refl,
}
use peer_chat.Base.Json.{Value, null, truthy}
use peer_chat.Store.{Store, get, put, Message}
use peer_chat.Notices.{
  Notice, Pass, waiting, is_warned, mark_key, eligible, ids_of, notice_for, mark_all, mark_of,
  record_of, give_notice, notify_peer, notify_all, is_due,
}

-- A message that was warned of stays so: only the marks of the notices are asked for.
unfoldable pub Keeps : Store → Store → Type 0
Keeps s s' = (peer id : String) → is_warned s peer id ≡ true → is_warned s' peer id ≡ true

get-put :
    (k j : String) (v : Value) (s : Store)
    → get (put k v s) j null ≡ (if k == j then v else get s j null)
get-put k j v s = by_test (k == j)
  where
    by_test :
        (b : Bool)
        → ◌≡◌ {A = Value}
            (elim (if b then some v else s.meta j) as (λ o. Value) [ none ↦ null | some w ↦ w ])
            (if b then v else get s j null)
    by_test true = refl
    by_test false = refl

put-Keeps : (k : String) (v : Value) (s : Store) → truthy v ≡ true → Keeps s (put k v s)
unfolding Keeps
put-Keeps k v s t peer id h =
    let j = mark_key peer id in ap truthy (get-put k j v s) ∙ either (k == j) v (get s j null) t h
  where
    either :
        (b : Bool) (x y : Value)
        → truthy x ≡ true
        → truthy y ≡ true
        → truthy (if b then x else y) ≡ true
    either true x y a b = a
    either false x y a b = b

Keeps-same : (s : Store) → Keeps s s
unfolding Keeps
Keeps-same s peer id h = h

Keeps-trans : (a b c : Store) → Keeps a b → Keeps b c → Keeps a c
unfolding Keeps
Keeps-trans a b c f g peer id h = g peer id (f peer id h)

module _ (p : Pass) (key : String) where
  mark_all-Keeps : (ms : List Message) (s : Store) → Keeps s (mark_all p key ms s)
  unfolding mark_all
  mark_all-Keeps [] s = Keeps-same s
  mark_all-Keeps (m ∷ ms) s =
      Keeps-trans s (put (mark_key key m.id) (mark_of p m) s) (mark_all p key (m ∷ ms) s)
        (put-Keeps (mark_key key m.id) (mark_of p m) s refl)
        (mark_all-Keeps ms (put (mark_key key m.id) (mark_of p m) s))

  mark_all-marks :
      (ms : List Message) (s : Store)
      → All (λ m. is_warned (mark_all p key ms s) key m.id ≡ true) ms
  unfolding mark_all Keeps
  mark_all-marks [] s = tt
  mark_all-marks (m ∷ ms) s =
      let first = put (mark_key key m.id) (mark_of p m) s in
      (
        mark_all-Keeps ms first key m.id (
            ap truthy (get-put (mark_key key m.id) (mark_key key m.id) (mark_of p m) s)
            ∙ rw (eq_refl (mark_key key m.id)) refl),
        mark_all-marks ms first,
      )

  give_notice-Keeps :
      (write : Notice → Option String) (ms : List Message) (s : Store)
      → Keeps
          (mark_all p key ms (
            put
              (text_append "notice:" key)
              (record_of p (get s "recovery_event" null) "attempting")
              s))
          (give_notice write p key ms s)
  unfolding give_notice
  give_notice-Keeps write ms s = put-Keeps _ _ _ refl

-- The messages of a notice were not warned of before, and are after.
record FirstTime (s s' : Store) (n : Notice) : Type 0 where
  before : All (λ id. is_warned s n.peer id ≡ false) n.ids
  after : All (λ id. is_warned s' n.peer id ≡ true) n.ids

All-ids :
    (s : Store) (b : Bool) (key : String) (ms : List Message)
    → All (λ m. is_warned s key m.id ≡ b) ms
    → All (λ id. is_warned s key id ≡ b) (ids_of ms)
All-ids s b key [] a = tt
All-ids s b key (m ∷ ms) a = (a.0, All-ids s b key ms a.1)

All-take :
    (n : ℕ) (s : Store) (key : String) (ms : List Message)
    → All (λ m. is_warned s key m.id ≡ false) ms
    → All (λ m. is_warned s key m.id ≡ false) (take n ms)
All-take zero s key ms h = tt
All-take (suc n) s key [] h = tt
All-take (suc n) s key (m ∷ ms) h = (h.0, All-take n s key ms h.1)

not-true : (a b : Bool) → (not a && b) ≡ true → a ≡ false
not-true a b h = ground arith

select-unwarned :
    (p : Pass) (s : Store) (key : String) (ms : List Message)
    → All
        (λ m. is_warned s key m.id ≡ false)
        (select (λ m. not (is_warned s key m.id) && is_due p m) ms)
select-unwarned p s key [] = tt
select-unwarned p s key (m ∷ ms) = elim (Bool-cases (not (is_warned s key m.id) && is_due p m)) [
  | inr f ↦ rw f (select-unwarned p s key ms)
  | inl t ↦ rw t (not-true (is_warned s key m.id) (is_due p m) t, select-unwarned p s key ms)
]

All-mono :
    (s s' : Store) (key : String) (ms : List Message)
    → Keeps s s'
    → All (λ m. is_warned s key m.id ≡ true) ms
    → All (λ m. is_warned s' key m.id ≡ true) ms
unfolding Keeps
All-mono s s' key [] k h = tt
All-mono s s' key (m ∷ ms) k h = (k key m.id h.0, All-mono s s' key ms k h.1)

All-append {ℓ κ} :
    {A : Type ℓ} (P : A → Type κ) (xs ys : List A) → All P xs → All P ys → All P (xs ++ ys)
All-append P [] ys x y = y
All-append P (a ∷ xs) ys x y = (x.0, All-append P xs ys x.1 y)

later-FirstTime :
    (s s' s'' : Store) (n : Notice) → Keeps s' s'' → FirstTime s s' n → FirstTime s s'' n
unfolding Keeps
later-FirstTime s s' s'' n k f = record {
  before = f.before;
  after =
      All-map (λ id. is_warned s' n.peer id ≡ true) (λ id. is_warned s'' n.peer id ≡ true) n.ids
        (λ id. k n.peer id) f.after;
}

earlier-unset : (a b : Bool) → (a ≡ true → b ≡ true) → b ≡ false → a ≡ false
earlier-unset true b f h = absurd_pair (f refl) h
  where
    absurd_pair : {b : Bool} → b ≡ true → b ≡ false → ◌≡◌ {A = Bool} true false
    absurd_pair e f = sym e ∙ f
earlier-unset false b f h = refl

earlier-FirstTime :
    (s s' s'' : Store) (n : Notice) → Keeps s s' → FirstTime s' s'' n → FirstTime s s'' n
unfolding Keeps
earlier-FirstTime s s' s'' n k f = record {
  before =
      All-map (λ id. is_warned s' n.peer id ≡ false) (λ id. is_warned s n.peer id ≡ false) n.ids
        (λ id. earlier-unset (is_warned s n.peer id) (is_warned s' n.peer id) (k n.peer id))
        f.before;
  after = f.after;
}

-- What a pass did to a store.
record Passed (s : Store) (r : List Notice × Store) : Type 0 where
  keeps : Keeps s r.1
  first : All (FirstTime s r.1) r.0

eligible-unwarned :
    (p : Pass) (key : String) (s : Store)
    → All (λ m. is_warned s key m.id ≡ false) (eligible p key s)
unfolding eligible
eligible-unwarned p key s = All-take 20 s key _ (select-unwarned p s key (waiting p key s))

module _ (write : Notice → Option String) (p : Pass) where
  give_notice-after :
      (key : String) (ms : List Message) (s : Store)
      → Keeps s (give_notice write p key ms s)
        × All (λ m. is_warned (give_notice write p key ms s) key m.id ≡ true) ms
  give_notice-after key ms s =
      let noted =
        put (text_append "notice:" key) (record_of p (get s "recovery_event" null) "attempting")
          s in
      let marked = mark_all p key ms noted in
      (
        Keeps-trans s noted (give_notice write p key ms s) (put-Keeps _ _ s refl) (
            Keeps-trans noted marked (give_notice write p key ms s) (mark_all-Keeps p key ms noted)
              (give_notice-Keeps p key write ms s)),
        All-mono marked (give_notice write p key ms s) key ms (give_notice-Keeps p key write ms s)
            (mark_all-marks p key ms noted),
      )

  notify_peer-Passed : (key : String) (s : Store) → Passed s (notify_peer write p key s)
  unfolding notify_peer notice_for
  notify_peer-Passed key s = by_rows (eligible p key s) (eligible-unwarned p key s)
    where
      by_rows :
          (ms : List Message)
          → All (λ m. is_warned s key m.id ≡ false) ms
          → Passed s (elim ms [
            | [] ↦ ([], s)
            | m ∷ rest ↦ (notice_for p key (m ∷ rest) s ∷ [], give_notice write p key (m ∷ rest) s)
          ])
      by_rows [] h = record { keeps = Keeps-same s; first = tt }
      by_rows (m ∷ ms) h =
          let (kept, after) = give_notice-after key (m ∷ ms) s in
          record {
            keeps = kept;
            first = (
              record {
                before = All-ids s false key (m ∷ ms) h;
                after = All-ids (give_notice write p key (m ∷ ms) s) true key (m ∷ ms) after;
              },
              tt,
            );
          }

  notify_all-Passed : (keys : List String) (s : Store) → Passed s (notify_all write p keys s)
  unfolding notify_all
  notify_all-Passed [] s = record { keeps = Keeps-same s; first = tt }
  notify_all-Passed (key ∷ keys) s =
      let one = notify_peer-Passed key s in
      let s' = (notify_peer write p key s).1 in
      let s'' = (notify_all write p keys s').1 in
      let rest = notify_all-Passed keys s' in
      record {
        keeps = Keeps-trans s s' s'' one.keeps rest.keeps;
        first =
            All-append (FirstTime s s'') (notify_peer write p key s).0
              (notify_all write p keys s').0
              (All-map (FirstTime s s') (FirstTime s s'') (notify_peer write p key s).0
                (λ n f. later-FirstTime s s' s'' n rest.keeps f) one.first)
              (All-map (FirstTime s' s'') (FirstTime s s'') (notify_all write p keys s').0
                (λ n f. earlier-FirstTime s s' s'' n one.keeps f) rest.first);
      }

-- No message is named in both notices.
pub Apart : Notice → Notice → Type 0
Apart n k = All (λ a. All (λ b. (n.peer == k.peer && a == b) ≡ false) k.ids) n.ids

apart_one :
    (s : Store) (x y a : String) (bs : List String)
    → is_warned s x a ≡ true
    → All (λ b. is_warned s y b ≡ false) bs
    → All (λ b. (x == y && a == b) ≡ false) bs
apart_one s x y a [] w u = tt
apart_one s x y a (b ∷ bs) w u = (
  elim (Bool-cases (x == y && a == b)) [
    | inr f ↦ f
    | inl t ↦ cc (
      (eq_iff x y).0 (and_first (x == y) (a == b) t),
      (eq_iff a b).0 (and_second (x == y) (a == b) t),
      w,
      u.0,
    )
  ],
  apart_one s x y a bs w u.1,
)

apart_all :
    (s : Store) (x y : String) (xs bs : List String)
    → All (λ a. is_warned s x a ≡ true) xs
    → All (λ b. is_warned s y b ≡ false) bs
    → All (λ a. All (λ b. (x == y && a == b) ≡ false) bs) xs
apart_all s x y [] bs w u = tt
apart_all s x y (a ∷ rest) bs w u = (apart_one s x y a bs w.0 u, apart_all s x y rest bs w.1 u)

-- Two passes of notify, with any stores between that keep the marks of the first one, name no message
-- of a peer in both: a sender is warned of a message once at most.
pub notify_twice :
    (write write' : Notice → Option String) (p p' : Pass) (keys keys' : List String) (s s' : Store)
    → Keeps (notify_all write p keys s).1 s'
    → All (λ n. All (Apart n) (notify_all write' p' keys' s').0) (notify_all write p keys s).0
unfolding Apart
notify_twice write write' p p' keys keys' s s' kept =
    let s1 = (notify_all write p keys s).1 in
    let s2 = (notify_all write' p' keys' s').1 in
    All-map (FirstTime s s1) (λ n. All (Apart n) (notify_all write' p' keys' s').0)
      (notify_all write p keys s).0
      (λ n f.
        All-map (FirstTime s' s2) (Apart n) (notify_all write' p' keys' s').0
          (λ k g.
            apart_all s' n.peer k.peer n.ids k.ids (later-FirstTime s s1 s' n kept f).after
              g.before)
          (notify_all-Passed write' p' keys' s').first)
      (notify_all-Passed write p keys s).first
