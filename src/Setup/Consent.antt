-- ===== src/Setup/Consent.antt =====
-- `enable_reviewed` of src/peer_setup.py: what is written, and what it returns.
use peer_chat.Base.{
  String, ◌≡◌, refl, ◌∙◌, ◌⊎◌, inl, inr, true, false, not, Option, none, some, List, [], ◌∷◌, map,
  arith, if◌then◌else◌, ◌==◌, any, Bool-cases,
}
use peer_chat.Setup.Review.{
  Outcome, done, failed, crashed, Reviewed, is_trusted, Request, Edit, Codex, Enabled, definition,
  edits_of, review, write_edits, enable_reviewed, request_for, confirm, stopped, finish_review,
  send, ◌>>=◌,
}

done_inj : (a b : List Reviewed) → done a ≡ done b → a ≡ b
done_inj a b h = cc

-- An outcome is done, or no continuation succeeds.
Outcome-cases {ℓ} :
    {A : Type ℓ} (o : Outcome A)
    → ((a : A) × (o ≡ done a))
      ⊎ ((f : A → Outcome (List Reviewed)) (b : List Reviewed) → ¬ ((o >>= f) ≡ done b))
Outcome-cases (done a) = inl (a, refl)
Outcome-cases (failed e) = inr (λ f b h. cc)
Outcome-cases crashed = inr (λ f b h. cc)

module _ {S : Type 0} (codex : Codex S) (home command : String) where
  -- The hooks reviewed in the state s carry the digest approved, and these edits are for them.
  pub record Consented (approved : String) (s : S) (request : Request) : Type 0 where
    pub hooks : List Reviewed
    pub reviewed : review codex home command s ≡ done hooks
    pub same_digest : (codex.digest (map definition hooks) == approved) ≡ true
    pub edits : request.edits ≡ edits_of codex.quote hooks

  -- A hook list is a review of the state in which every hook is trusted.
  pub record Confirmed (s : S) (hooks : List Reviewed) : Type 0 where
    pub reviewed : review codex home command s ≡ done hooks
    pub trusted : any (λ h. not (is_trusted h)) hooks ≡ false

  abbrev pub SentWith : String → S → Option Request → Type 0
  SentWith approved s none = Unit
  SentWith approved s (some request) = Consented approved s request

  -- What is proved of an attempt: a request is sent with consent alone, a success is confirmed, and
  -- without a request the state is left alone.
  pub record IsConsented (approved : String) (s : S) (e : Enabled S) : Type 0 where
    pub sent_with : SentWith approved s e.sent
    pub confirmed : (hooks : List Reviewed) → e.result ≡ done hooks → Confirmed e.state hooks
    pub unsent : e.sent ≡ none → e.state ≡ s

  finish_review-Confirmed :
      (s : S) (hooks : List Reviewed)
      → (review codex home command s >>= confirm codex home command) ≡ done hooks
      → Confirmed s hooks
  finish_review-Confirmed s hooks h = elim (Outcome-cases (review codex home command s)) [
    | inl (found, e) ↦ (elim (Bool-cases (any (λ h. not (is_trusted h)) found)) [
      | inl t ↦ cc (rw (e, t) at h)
      | inr t ↦
          let same : found ≡ hooks = done_inj found hooks (rw (e, t) at h) in
          record { reviewed = rw (← same) e; trusted = rw (← same) t }
    ])
    | inr fails ↦ absurd (fails (confirm codex home command) hooks h)
  ]

  stopped-IsConsented :
      (approved : String) (s0 s : S) (sent : Option Request)
      → SentWith approved s0 sent
      → (sent ≡ none → s ≡ s0)
      → IsConsented approved s0 (stopped codex home command s sent)
  stopped-IsConsented approved s0 s sent with_consent alone = record {
    sent_with = with_consent;
    confirmed = λ hooks h. cc;
    unsent = alone;
  }

  failed-IsConsented :
      (approved why : String) (s : S)
      → IsConsented approved s (record { state = s; sent = none; result = failed why })
  failed-IsConsented approved why s = record {
    sent_with = tt;
    confirmed = λ hooks h. cc;
    unsent = λ e. refl;
  }

  finish_review-IsConsented :
      (approved : String) (s0 s : S) (sent : Option Request)
      → SentWith approved s0 sent
      → (sent ≡ none → s ≡ s0)
      → IsConsented approved s0 (finish_review codex home command s sent)
  finish_review-IsConsented approved s0 s sent with_consent alone = record {
    sent_with = with_consent;
    confirmed = finish_review-Confirmed s;
    unsent = alone;
  }

  send-IsConsented :
      (approved : String) (s0 s : S) (request : Request)
      → Consented approved s0 request
      → IsConsented approved s0 (send codex home command request s)
  send-IsConsented approved s0 s request consent = after (codex.write request s)
    where
      after :
          (o : Option S)
          → IsConsented approved s0 (elim o [
            | none ↦ stopped codex home command s (some request)
            | some s' ↦ finish_review codex home command s' (some request)
          ])
      after none = stopped-IsConsented approved s0 s (some request) consent (λ e. cc)
      after (some s') = finish_review-IsConsented approved s0 s' (some request) consent (λ e. cc)

  request_for-edits :
      (edits : List Edit) (s : S) (request : Request)
      → request_for codex home command edits s ≡ done request
      → request.edits ≡ edits
  request_for-edits edits s request h = ground arith

  write_edits-IsConsented :
      (approved : String) (s : S) (edits : List Edit) (hooks : List Reviewed)
      → review codex home command s ≡ done hooks
      → (codex.digest (map definition hooks) == approved) ≡ true
      → edits ≡ edits_of codex.quote hooks
      → IsConsented approved s (write_edits codex home command edits s)
  unfolding write_edits
  write_edits-IsConsented approved s [] hooks r d e =
      finish_review-IsConsented approved s s none tt (λ n. refl)
  write_edits-IsConsented approved s (x ∷ xs) hooks r d e =
      by_request (request_for codex home command (x ∷ xs) s) refl
    where
      by_backup :
          (request : Request) (o : Option S)
          → Consented approved s request
          → IsConsented approved s (elim o [
            | none ↦ stopped codex home command s none
            | some s' ↦ send codex home command request s'
          ])
      by_backup request none consent = stopped-IsConsented approved s s none tt (λ n. refl)
      by_backup request (some s') consent = send-IsConsented approved s s' request consent

      by_request :
          (o : Outcome Request)
          → request_for codex home command (x ∷ xs) s ≡ o
          → IsConsented approved s (elim o [
            | done request ↦ (elim (codex.backup s) [
              | none ↦ stopped codex home command s none
              | some s' ↦ send codex home command request s'
            ])
            | failed why ↦ record { state = s; sent = none; result = failed why }
            | crashed ↦ stopped codex home command s none
          ])
      by_request (done request) q = by_backup request (codex.backup s) (record {
        hooks = hooks;
        reviewed = r;
        same_digest = d;
        edits = request_for-edits (x ∷ xs) s request q ∙ e;
      })
      by_request (failed why) q = failed-IsConsented approved why s
      by_request crashed q = stopped-IsConsented approved s s none tt (λ n. refl)

  -- A request is sent to Codex only after a review of the hooks as they were at the start, whose digest
  -- is the approved one, and it writes exactly the hashes of those reviewed hooks that are not
  -- trusted; without a request the state is as it was; and where hooks are returned, they are the review of
  -- the final state, with every one trusted.
  pub enable_reviewed-IsConsented :
      (approved : String) (s : S)
      → IsConsented approved s (enable_reviewed codex home command approved s)
  unfolding enable_reviewed
  enable_reviewed-IsConsented approved s = by_review (review codex home command s) refl
    where
      by_review :
          (o : Outcome (List Reviewed))
          → review codex home command s ≡ o
          → IsConsented approved s (elim o [
            | failed why ↦ record { state = s; sent = none; result = failed why }
            | crashed ↦ stopped codex home command s none
            | done hooks ↦
                if not (codex.digest (map definition hooks) == approved)
                then record {
                  state = s;
                  sent = none;
                  result = failed "Hook definitions changed since review; consent does not match";
                }
                else write_edits codex home command (edits_of codex.quote hooks) s
          ])
      by_review (failed why) q = failed-IsConsented approved why s
      by_review crashed q = stopped-IsConsented approved s s none tt (λ n. refl)
      by_review (done hooks) q =
          elim (Bool-cases (codex.digest (map definition hooks) == approved)) [
            | inl t ↦
                rw t
                  (write_edits-IsConsented approved s (edits_of codex.quote hooks) hooks q t refl)
            | inr t ↦ rw t (failed-IsConsented approved _ s)
          ]
