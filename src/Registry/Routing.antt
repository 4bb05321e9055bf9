-- ===== src/Registry/Routing.antt =====
-- `routing_rejection` and the permission classes of src/peer_registry.py and src/peer_chat.py.
use peer_chat.Base.{
  String, ◌≡◌, refl, Bool, true, false, not, ◌&&◌, ◌||◌, Option, none, some, arith, if◌then◌else◌,
  ◌==◌, Bool-cases, Option-cases, inl, inr,
}
use peer_chat.Base.Json.{Value, null, str, member, is_text}
use peer_chat.Registry.{
  Permission, classify, permission_class, is_unrestricted, is_known, asks, Routes, ThreadRow,
  routing_rejection, has_marker, environment_differs, transcript_rejection, row_rejection,
}

abbrev pub refused : Permission → Option Permission
refused Permission.unknown = none
refused p = some p

-- The registry's reading of a thread's rights is unknown exactly where sending is refused, and else
-- they agree.
pub permission_class-classify :
    (kind : Option Value) (approval : Value)
    → permission_class kind approval ≡ refused (classify kind approval)
unfolding permission_class classify
permission_class-classify none approval = refl
permission_class-classify (some kind) approval =
    elim (Bool-cases (is_unrestricted kind && is_text approval "never")) [
      | inl e ↦ rw e refl
      | inr e ↦ (elim (Bool-cases (is_known kind && asks approval)) [
        | inl f ↦ rw (e, f) refl
        | inr f ↦ rw (e, f) refl
      ])
    ]

-- A hook that is not rejected carries the thread's id and no mark of a child, and its transcript
-- resolves to the rollout of the thread's row, which is not archived and not a child's.
pub record Own (routes : Routes) (payload : Value) (thread : String) : Type 0 where
  pub transcript : String
  pub path : String
  pub session : is_text (member payload "session_id") thread ≡ true
  pub unmarked : has_marker payload ≡ false
  pub named : member payload "transcript_path" ≡ str transcript
  pub root : routes.is_child ≡ false
  pub row : ThreadRow
  pub found : routes.thread_row ≡ some row
  pub live : row.archived ≡ false
  pub rollout : row.rollout_path ≡ some path
  pub same : (routes.resolve transcript == routes.resolve path) ≡ true

row-Own :
    (routes : Routes) (transcript : String) (row : ThreadRow)
    → row_rejection routes transcript (some row) ≡ none
    → (row.archived ≡ false)
      × ((path : String) × (row.rollout_path ≡ some path)
          × ((routes.resolve transcript == routes.resolve path) ≡ true))
row-Own routes transcript row h = elim (Bool-cases row.archived) [
  | inl a ↦ cc (rw (a, row_rejection) at h)
  | inr a ↦ (a, by_path row.rollout_path refl (rw (a, row_rejection) at h))
]
  where
    by_path :
        (p : Option String)
        → row.rollout_path ≡ p
        → elim p as (λ x. Option String) [
          | none ↦ some "transcript_path mismatch"
          | some path ↦
              if path == "" || not (routes.resolve transcript == routes.resolve path)
              then some "transcript_path mismatch"
              else none
        ]
          ≡ none
        → (path : String) × (row.rollout_path ≡ some path)
          × ((routes.resolve transcript == routes.resolve path) ≡ true)
    by_path none f k = cc
    by_path (some path) f k =
        elim (Bool-cases (path == "" || not (routes.resolve transcript == routes.resolve path))) [
          | inl e ↦ cc (rw e at k)
          | inr e ↦ (path, f, ground arith)
        ]

transcript-Own :
    (routes : Routes) (payload : Value) (thread : String) (v : Value)
    → member payload "transcript_path" ≡ v
    → is_text (member payload "session_id") thread ≡ true
    → has_marker payload ≡ false
    → transcript_rejection routes v ≡ none
    → Own routes payload thread
transcript-Own routes payload thread (str t) f s m h = elim (Bool-cases (t == "")) [
  | inl e ↦ cc (rw e at h)
  | inr e ↦ (elim (Bool-cases routes.is_child) [
    | inl c ↦ cc (rw (e, c) at h)
    | inr c ↦ (elim (Option-cases routes.thread_row) [
      | inl n ↦ cc (rw (e, c) at (rw n at h))
      | inr (row, n) ↦
          let (a, (path, r, q)) = row-Own routes t row (rw n at (rw (e, c) at h)) in
          record {
            transcript = t;
            path = path;
            session = s;
            unmarked = m;
            named = f;
            root = c;
            row = row;
            found = n;
            live = a;
            rollout = r;
            same = q;
          }
    ])
  ])
]
transcript-Own routes payload thread null f s m h = cc
transcript-Own routes payload thread v f s m h = cc

-- A hook that routing accepts is the thread's own.
pub routing_rejection-Own :
    (routes : Routes) (check : Bool) (payload : Value) (thread : String)
    → routing_rejection routes check payload thread ≡ none
    → Own routes payload thread
unfolding routing_rejection
routing_rejection-Own routes check payload thread h =
    elim (Bool-cases (is_text (member payload "session_id") thread)) [
      | inr e ↦ cc (rw e at h)
      | inl e ↦ (elim (Bool-cases (has_marker payload)) [
        | inl m ↦ cc (rw (e, m) at h)
        | inr m ↦ (elim (Bool-cases (check && environment_differs routes thread)) [
          | inl d ↦ cc (rw (e, m, d) at h)
          | inr d ↦
              transcript-Own routes payload thread (member payload "transcript_path") refl e m
                (rw (e, m, d) at h)
        ])
      ])
    ]
