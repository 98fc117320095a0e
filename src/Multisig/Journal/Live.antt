-- ===== src/Multisig/Journal/Live.antt =====
-- What the journal holds, after a record and after a prune.
use steem_virtual_machine_ev.Prelude.{
  ℕ, ◌+◌, ◌≤◌, ◌≡◌, ◌≢◌, ◌⊎◌, inl, inr, arith, ◌=?◌, true, false, Bytes, bytes_beq_iff, bytes_eq,
  [], ◌∷◌, Option, some, get, put, get-put, Option-cases, Bool-cases,
}
use steem_virtual_machine_ev.Multisig.Journal.{
  JournalEntry, ApprovalJournal, can_execute, any_conflict, conflicts, is_stale, prune, prune_after,
}

pub get-put-cases :
    (p k : Bytes) (e v : JournalEntry) (j : ApprovalJournal)
    → get p (put k v j) ≡ some e
    → ((p ≡ k) × (e ≡ v)) ⊎ (get p j ≡ some e)
get-put-cases p k e v j h = ground (arith, get-put p k v j, bytes_beq_iff p k)

module _ (parse_time : Bytes → Option ℕ) where
  -- Of two approvals of one subject that can both still execute, the proposals are the same.
  abbrev pub OneLive : ApprovalJournal → ℕ → Type 0
  OneLive j time =
      (p q : Bytes) (e f : JournalEntry)
      → get p j ≡ some e
      → get q j ≡ some f
      → e.subject ≡ f.subject
      → e.subject ≢ []
      → can_execute parse_time time e ≡ true
      → can_execute parse_time time f ≡ true
      → p ≡ q

  pub can_execute-earlier :
      (now time : ℕ) (e : JournalEntry)
      → now ≤ time
      → can_execute parse_time time e ≡ true
      → can_execute parse_time now e ≡ true
  unfolding can_execute
  can_execute-earlier now time e le h = elim (Option-cases (parse_time e.expiration)) [
    | inl bad ↦ ground arith
    | inr (exp, parsed) ↦ ground arith
  ]

  any_conflict-get :
      (p id subject : Bytes) (now : ℕ) (e : JournalEntry) (j : ApprovalJournal)
      → get p j ≡ some e
      → p ≢ id
      → e.subject ≡ subject
      → can_execute parse_time now e ≡ true
      → any_conflict parse_time j subject id now ≡ true
  unfolding any_conflict get
  any_conflict-get p id subject now e [] h other same live = ground arith
  any_conflict-get p id subject now e ((i, f) ∷ j) h other same live = elim (Bool-cases (p =? i)) [
    | inl here ↦
        ground (arith, bytes_beq_iff p i, bytes_beq_iff i id, bytes_beq_iff f.subject subject)
    | inr later ↦
        let rest : any_conflict parse_time j subject id now ≡ true =
          any_conflict-get p id subject now e j (ground arith) other same live in
        ground arith
  ]

  -- A live approval of a subject without conflicts is of the proposal that was checked.
  pub checked_alone :
      (j : ApprovalJournal) (time now : ℕ) (subject checked p : Bytes) (e : JournalEntry)
      → now ≤ time
      → conflicts parse_time (some j) subject checked now ≡ false
      → get p j ≡ some e
      → e.subject ≡ subject
      → e.subject ≢ []
      → can_execute parse_time time e ≡ true
      → p ≡ checked
  unfolding conflicts
  checked_alone j time now subject checked p e le free held same named live =
      elim (Bool-cases (p =? checked)) [
        | inl here ↦ ground (arith, bytes_beq_iff p checked)
        | inr there ↦
            let other : p ≢ checked = ground (arith, bytes_beq_iff p checked) in
            let soon : can_execute parse_time now e ≡ true =
              can_execute-earlier now time e le live in
            let hit : any_conflict parse_time j subject checked now ≡ true =
              any_conflict-get p checked subject now e j held other same soon in
            ground (arith, bytes_beq_iff subject [])
      ]

  is_stale-live :
      (now time : ℕ) (e : JournalEntry)
      → now ≤ time + prune_after
      → can_execute parse_time time e ≡ true
      → is_stale parse_time now e ≡ false
  unfolding is_stale can_execute
  is_stale-live now time e le live = elim (Option-cases (parse_time e.expiration)) [
    | inl bad ↦ ground arith
    | inr (exp, parsed) ↦ ground arith
  ]

  -- What can still execute is not dropped while the time is less than the margin behind.
  pub get-prune :
      (p : Bytes) (now time : ℕ) (e : JournalEntry) (j : ApprovalJournal)
      → now ≤ time + prune_after
      → get p j ≡ some e
      → can_execute parse_time time e ≡ true
      → get p (prune parse_time j now) ≡ some e
  unfolding prune get
  get-prune p now time e [] le h live = ground arith
  get-prune p now time e ((i, f) ∷ j) le h live = elim (Bool-cases (p =? i)) [
    | inl here ↦
        let kept : is_stale parse_time now e ≡ false = is_stale-live now time e le live in
        ground arith
    | inr later ↦
        let rest : get p (prune parse_time j now) ≡ some e =
          get-prune p now time e j le (ground arith) live in
        ground arith
  ]

  pub put-OneLive :
      (j : ApprovalJournal) (time : ℕ) (id : Bytes) (v : JournalEntry)
      → ((p : Bytes) (e : JournalEntry)
          → get p j ≡ some e
          → e.subject ≡ v.subject
          → e.subject ≢ []
          → can_execute parse_time time e ≡ true
          → p ≡ id)
      → OneLive j time
      → OneLive (put id v j) time
  put-OneLive j time id v alone kept p q e f hp hq same named live_e live_f =
      elim (get-put-cases p id e v j hp) [
        | inl (at_id, is_v) ↦ elim (get-put-cases q id f v j hq) [
          | inl (at_id', is_v') ↦ ground arith
          | inr old ↦
              let back : q ≡ id = alone q f old (ground arith) (ground arith) live_f in ground arith
        ]
        | inr old ↦ elim (get-put-cases q id f v j hq) [
          | inl (at_id', is_v') ↦
              let back : p ≡ id = alone p e old (ground arith) named live_e in ground arith
          | inr old' ↦ kept p q e f old old' same named live_e live_f
        ]
      ]
