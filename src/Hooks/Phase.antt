-- ===== src/Hooks/Phase.antt =====
-- The store after `deliver` of src/peer_hooks.py: the phase, the keys and the messages.
use peer_chat.Base.{
  ℕ, String, ◌≡◌, refl, sym, ap, ◌∙◌, Bool, true, false, ◌&&◌, Option, none, some, List, arith,
  if◌then◌else◌, ◌==◌, Bool-cases, inl, inr, ◌⊎◌, take, is_some,
}
use peer_chat.Base.Json.{Value, null, str, obj, end, member, truthy}
use peer_chat.Base.Text.{is_uuid}
use peer_chat.Store.{Store, Message, get, put, update_meta, update_messages, pending}
use peer_chat.Store.Progress.{Progress, Progress-refl, Progress-trans, same-Progress}
use peer_chat.Store.Keys.{Keyed}
use peer_chat.Budget.{is_lifecycle_event, renew_for_owner_prompt, renew_turn, owner_turn}
use peer_chat.Wake.Events.{active_hook}
use peer_chat.Wake.Frame.{active_hook-Untouched}
use peer_chat.Peers.{Host}
use peer_chat.Hooks.{Offer, offer, offer_all, take_notices}
use peer_chat.Hooks.Offers.{any_row, offer-keeps}
use peer_chat.Hooks.Safety.{offer_all-Progress, offer_all-Keyed, offer_all-cases}
use peer_chat.Hooks.Deliver.{
  Arrival, silent, deliver, enter, bring, observe, is_rejected, is_start, is_pause, restores_owner,
}

abbrev pub Kept : Store → Store → Type 0
Kept s s' = Progress s s' × Keyed s'.messages

-- The phase and the evidence of lifecycle hooks.
abbrev marks : Store → Option Value × Option Value
marks s = (s.meta "phase", s.meta "hook_seen")

same_marks :
    (s s' : Store)
    → s.meta "phase" ≡ s'.meta "phase"
    → s.meta "hook_seen" ≡ s'.meta "hook_seen"
    → marks s ≡ marks s'
same_marks s s' p q = rw (p, q) refl

-- A writer of neither the messages nor these two keys.
record Quiet (s s' : Store) : Type 0 where
  messages : s.messages ≡ s'.messages
  kept : marks s ≡ marks s'

renew-Quiet : (payload : Value) (s : Store) → Quiet s (renew_for_owner_prompt payload s).1
unfolding renew_for_owner_prompt
renew-Quiet payload s = go (owner_turn payload)
  where
    turn-Quiet : (turn : String) → Quiet s (renew_turn turn s).1
    turn-Quiet turn = record {
      messages = ground arith;
      kept = same_marks s (renew_turn turn s).1 (ground arith) (ground arith);
    }

    go :
        (t : Option String)
        → Quiet s
            (elim t as (λ x. Bool × Store) [ none ↦ (false, s) | some turn ↦ renew_turn turn s ]).1
    go none = record { messages = refl; kept = refl }
    go (some turn) = turn-Quiet turn

take_notices-Quiet : (render : Value → String) (s : Store) → Quiet s (take_notices render s).1
unfolding take_notices
take_notices-Quiet render s = elim (Bool-cases (truthy (get s "peer_notices" (obj end)))) [
  | inl e ↦ rw e (record { messages = refl; kept = refl })
  | inr e ↦ rw e (record { messages = refl; kept = refl })
]

get-found :
    (key : String) (v default : Value) (s : Store) → s.meta key ≡ some v → get s key default ≡ v
get-found key v default s e = rw (e, get)

update_meta-marks : (v : Value) (s : Store) → marks (update_meta "remaining" v s) ≡ marks s
update_meta-marks v s = same_marks (update_meta "remaining" v s) s (ground arith) (ground arith)

rejects :
    (a : Arrival) (payload : Value) (r : String)
    → a.rejection ≡ some r
    → (is_some a.registered && (is_start payload && r == "missing thread")) ≡ false
    → is_rejected a payload ≡ true
rejects a payload r e j = rw (e, j) refl

goes_on :
    (a : Arrival) (payload : Value) (r : String)
    → a.rejection ≡ some r
    → (is_some a.registered && (is_start payload && r == "missing thread")) ≡ true
    → is_rejected a payload ≡ false
goes_on a payload r e j = rw (e, j) refl

noted-seen :
    (a : Arrival) (payload : Value) (s : Store) (r : String)
    → a.rejection ≡ some r
    → s.meta "hook_seen" ≡ (observe a payload s).meta "hook_seen"
noted-seen a payload s r e = rw e refl

module _ (host : Host) (quote : String → String) (render : Value → String) where
  offer-marks :
      (config : Value) (now : ℕ) (ms : List Message) (o : Offer)
      → marks (offer host quote config now ms o).store ≡ marks o.store
  unfolding update_messages
  offer-marks config now ms o =
      offer-keeps host quote config (λ o'. marks o'.store ≡ marks o.store) (λ m. Unit)
        (λ now m o' q h. h) (λ now m o' q l h. h) now ms o (any_row ms) refl

  offer_all-marks :
      (config : Value) (now : ℕ) (notice : String) (s : Store)
      → marks (offer_all host quote config now notice s).1 ≡ marks s
  offer_all-marks config now notice s =
      offer_all-cases host quote config now notice s (λ t. marks t ≡ marks s) refl
        λ o e.
          update_meta-marks _ (offer host quote config now (take 4 (pending s)) o).store
          ∙ (offer-marks config now (take 4 (pending s)) o ∙ ap marks e)

  bring-marks :
      (a : Arrival) (config : Value) (restores : Bool) (s : Store)
      → marks (bring host quote render a config restores s).1 ≡ marks s
  bring-marks a config restores s =
      offer_all-marks config a.now (take_notices render s).0 (take_notices render s).1
      ∙ sym (take_notices-Quiet render s).kept

  enter-phase :
      (a : Arrival) (payload : Value) (s : Store)
      → (enter host quote render a payload s).1.meta "phase"
        ≡ some (str (if is_pause payload then "idle" else "active"))
  enter-phase a payload s = elim (Bool-cases (is_pause payload)) [
    | inl e ↦ rw e refl
    | inr e ↦
        let entered = put "phase" (str "active") (renew_for_owner_prompt payload s).1 in
        rw e (
          ap (λ (m : Option Value × Option Value). m.0)
            (bring-marks a (get s "config" null) (restores_owner a payload s)
              (active_hook payload a.now entered).1)
          ∙ sym ((active_hook-Untouched payload a.now entered).other "phase" refl))
  ]

  enter-seen :
      (a : Arrival) (payload : Value) (s : Store)
      → s.meta "hook_seen" ≡ (enter host quote render a payload s).1.meta "hook_seen"
  enter-seen a payload s =
      let renewed : s.meta "hook_seen" ≡ (renew_for_owner_prompt payload s).1.meta "hook_seen" =
        ap (λ (m : Option Value × Option Value). m.1) (renew-Quiet payload s).kept in
      elim (Bool-cases (is_pause payload)) [
        | inl e ↦ rw e renewed
        | inr e ↦
            let entered = put "phase" (str "active") (renew_for_owner_prompt payload s).1 in
            rw e (
              renewed
              ∙ ((active_hook-Untouched payload a.now entered).other "hook_seen" refl
                  ∙ ap (λ (m : Option Value × Option Value). m.1)
                      (sym (
                        bring-marks a (get s "config" null) (restores_owner a payload s)
                          (active_hook payload a.now entered).1))))
      ]

  bring-Kept :
      (a : Arrival) (config : Value) (restores : Bool) (s : Store)
      → Keyed s.messages
      → Kept s (bring host quote render a config restores s).1
  bring-Kept a config restores s k =
      let taken = take_notices-Quiet render s in
      let (notice, s') = take_notices render s in
      let k' : Keyed s'.messages = rw (← taken.messages) k in
      (
        Progress-trans (same-Progress taken.messages)
            (offer_all-Progress host quote config a.now notice s' k'),
        offer_all-Keyed host quote config a.now notice s' k',
      )

  enter-Kept :
      (a : Arrival) (payload : Value) (s : Store)
      → Keyed s.messages
      → Kept s (enter host quote render a payload s).1
  enter-Kept a payload s k =
      let renewed = renew-Quiet payload s in
      elim (Bool-cases (is_pause payload)) [
        | inl e ↦ rw e (same-Progress renewed.messages, rw (← renewed.messages) k)
        | inr e ↦
            let entered = put "phase" (str "active") (renew_for_owner_prompt payload s).1 in
            let hooked = active_hook-Untouched payload a.now entered in
            let brought =
              bring-Kept a (get s "config" null) (restores_owner a payload s)
                (active_hook payload a.now entered).1
                (rw (← hooked.messages, ← renewed.messages) k) in
            rw e (
              Progress-trans (same-Progress (renewed.messages ∙ hooked.messages)) brought.0,
              brought.1,
            )
      ]

  -- A hook that has a bridge to deliver from.
  abbrev pub is_bridged : Value → Store → Bool
  is_bridged payload s =
      is_lifecycle_event (member payload "hook_event_name")
      && ((elim (member payload "session_id") [ str t ↦ is_uuid t | _ ↦ false ])
          && truthy (get s "config" null))

  deliver-cases :
      (a : Arrival) (payload : Value) (s : Store)
      → ((is_bridged payload s ≡ false) × (deliver host quote render a payload s ≡ (silent, s)))
        ⊎ ((is_bridged payload s ≡ true)
            × (deliver host quote render a payload s ≡ (
                if is_rejected a payload
                then (silent, observe a payload s)
                else enter host quote render a payload (observe a payload s))))
  unfolding deliver
  deliver-cases a payload s =
      elim (Bool-cases (is_lifecycle_event (member payload "hook_event_name"))) [
        | inr e ↦ rw e (inl (refl, refl))
        | inl e ↦
            (elim (Bool-cases (elim (member payload "session_id") as (λ x. Bool) [
              | str t ↦ is_uuid t
              | _ ↦ false
            ])) [
              | inr f ↦ rw (e, f) (inl (refl, refl))
              | inl f ↦ (elim (Bool-cases (truthy (get s "config" null))) [
                | inr g ↦ rw (e, f, g) (inl (refl, refl))
                | inl g ↦ rw (e, f, g) (inr (refl, refl))
              ])
            ])
      ]

  -- A hook that routing rejects never changes the evidence of lifecycle hooks, hook_seen. But for a
  -- start that registered a thread whose row is missing, it returns nothing, changes no row of the three
  -- tables (messages, outgoing, timing), and no key of the store but hook_rejected.
  pub deliver-rejected :
      (a : Arrival) (payload : Value) (s : Store) (r : String)
      → a.rejection ≡ some r
      → let (reply, s') = deliver host quote render a payload s in
        (s.meta "hook_seen" ≡ s'.meta "hook_seen")
        × (((is_some a.registered && (is_start payload && r == "missing thread")) ≡ true)
            ⊎ ((reply ≡ silent)
                × (s.messages ≡ s'.messages)
                × (s.outgoing ≡ s'.outgoing)
                × (s.timing ≡ s'.timing)
                × ((key : String) → ("hook_rejected" == key) ≡ false → s.meta key ≡ s'.meta key)))
  deliver-rejected a payload s r e = elim (deliver-cases a payload s) [
    | inl (b, d) ↦ rw d (refl, inr (refl, refl, refl, refl, λ key k. refl))
    | inr (b, d) ↦
        (elim (Bool-cases (is_some a.registered && (is_start payload && r == "missing thread"))) [
          | inr j ↦
              rw (d, rejects a payload r e j)
                (noted-seen a payload s r e, inr (refl, refl, refl, refl, λ key k. rw (e, k) refl))
          | inl j ↦
              rw (d, goes_on a payload r e j)
                (noted-seen a payload s r e ∙ enter-seen a payload (observe a payload s), inl j)
        ])
  ]

  -- A hook that is not rejected leaves the phase idle at a start and at a stop, else active.
  pub deliver-phase :
      (a : Arrival) (payload : Value) (s : Store)
      → is_bridged payload s ≡ true
      → is_rejected a payload ≡ false
      → get (deliver host quote render a payload s).1 "phase" null
        ≡ str (if is_pause payload then "idle" else "active")
  deliver-phase a payload s b j = elim (deliver-cases a payload s) [
    | inl (n, d) ↦ cc
    | inr (y, d) ↦
        rw (d, j)
          (get-found "phase" (str (if is_pause payload then "idle" else "active")) null
            (enter host quote render a payload (observe a payload s)).1
            (enter-phase a payload (observe a payload s)))
  ]

  -- No hook loses or edits a message, takes one back from consumed, or makes one received again,
  -- and the primary key holds after it.
  pub deliver-Kept :
      (a : Arrival) (payload : Value) (s : Store)
      → Keyed s.messages
      → Kept s (deliver host quote render a payload s).1
  deliver-Kept a payload s k = elim (deliver-cases a payload s) [
    | inl (n, d) ↦ rw d (Progress-refl s, k)
    | inr (y, d) ↦ (elim (Bool-cases (is_rejected a payload)) [
      | inl j ↦ rw (d, j) (same-Progress {s = s} {s' = observe a payload s} refl, k)
      | inr j ↦
          let entered = enter-Kept a payload (observe a payload s) k in
          rw (d, j)
            (
              Progress-trans (same-Progress {s = s} {s' = observe a payload s} refl) entered.0,
              entered.1,
            )
    ])
  ]
