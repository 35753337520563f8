-- ===== src/Admin/Cases.antt =====
-- The open cases of a conversation under the writes of one case.
use chat_bot_ceiba.Common.{
  ◌≡◌, refl, subst, inl, inr, Bool, true, false, some, List, [], ◌∷◌, ◌++◌, arith, ◌==◌, ==_refl,
  Bool-cases, All, select, if◌then◌else◌,
}
use chat_bot_ceiba.Rows.Table.{get, put, Unique}
use chat_bot_ceiba.Rows.Handoff.{Handoff, handoff_key}

module _ (p : Handoff → Bool) where
  select-All :
      (Q : Handoff → Type 0) (hs : List Handoff) (h : Handoff)
      → All Q hs
      → select p hs ≡ h ∷ []
      → Q h
  select-All Q [] h q e = absurd (cc)
  select-All Q (x ∷ xs) h q e = elim (Bool-cases (p x)) [
    | inl hit ↦
        let it : x ∷ select p xs ≡ h ∷ [] = rw hit at e in let same : x ≡ h = cc in subst Q same q.0
    | inr miss ↦ select-All Q xs h q.1 (rw miss at e)
  ]

  pub select-hit : (hs : List Handoff) (h : Handoff) → select p hs ≡ h ∷ [] → p h ≡ true
  select-hit [] h e = absurd (cc)
  select-hit (x ∷ xs) h e = elim (Bool-cases (p x)) [
    | inl hit ↦
        let it : x ∷ select p xs ≡ h ∷ [] = rw hit at e in
        let same : x ≡ h = cc in subst (λ (y : Handoff). p y ≡ true) same hit
    | inr miss ↦ select-hit xs h (rw miss at e)
  ]

  -- The only chosen case is found by its key.
  pub select-get :
      (hs : List Handoff) (h : Handoff)
      → Unique handoff_key hs
      → select p hs ≡ h ∷ []
      → get handoff_key h.handoff_id hs ≡ some h
  unfolding get
  select-get [] h u e = absurd (cc)
  select-get (x ∷ xs) h u e = elim (Bool-cases (p x)) [
    | inl hit ↦
        let it : x ∷ select p xs ≡ h ∷ [] = rw hit at e in
        let same : x ≡ h = cc in
        subst (λ (y : Handoff). get handoff_key y.handoff_id (x ∷ xs) ≡ some y) same
          (rw (==_refl x.handoff_id) refl)
    | inr miss ↦
        let later : select p xs ≡ h ∷ [] = rw miss at e in
        let apart =
          select-All (λ (y : Handoff). (y.handoff_id == x.handoff_id) ≡ false) xs h u.0 later in
        let rest = select-get xs h u.1 later in ground arith
  ]

  pub select-put :
      (hs : List Handoff) (h h' : Handoff)
      → Unique handoff_key hs
      → select p hs ≡ h ∷ []
      → h'.handoff_id ≡ h.handoff_id
      → select p (put handoff_key h' hs) ≡ (if p h' then h' ∷ [] else [])
  unfolding put
  select-put [] h h' u e same = absurd (cc)
  select-put (x ∷ xs) h h' u e same = elim (Bool-cases (p x)) [
    | inl hit ↦
        let it : x ∷ select p xs ≡ h ∷ [] = rw hit at e in
        let first : x ≡ h = cc in
        let alone : select p xs ≡ [] = cc in
        let key : (x.handoff_id == h'.handoff_id) ≡ true = ground arith in rw (key, alone) refl
    | inr miss ↦
        let later : select p xs ≡ h ∷ [] = rw miss at e in
        let apart =
          select-All (λ (y : Handoff). (y.handoff_id == x.handoff_id) ≡ false) xs h u.0 later in
        let key : (x.handoff_id == h'.handoff_id) ≡ false = ground arith in
        rw (key, miss) (select-put xs h h' u.1 later same)
  ]

  -- A write of a case that is not chosen, before or after.
  pub select-put_other :
      (hs : List Handoff) (h h' : Handoff)
      → get handoff_key h'.handoff_id hs ≡ some h
      → p h ≡ false
      → p h' ≡ false
      → select p (put handoff_key h' hs) ≡ select p hs
  unfolding get put
  select-put_other [] h h' g a b = refl
  select-put_other (x ∷ xs) h h' g a b = elim (Bool-cases (x.handoff_id == h'.handoff_id)) [
    | inl hit ↦
        let it : x ≡ h = ground arith in let off : p x ≡ false = rw it a in rw (hit, b, off) refl
    | inr miss ↦ let rest = select-put_other xs h h' (rw miss at g) a b in rw (miss, rest) refl
  ]

  pub select-snoc :
      (hs : List Handoff) (h : Handoff)
      → select p (hs ++ h ∷ []) ≡ select p hs ++ (if p h then h ∷ [] else [])
  select-snoc [] h = refl
  select-snoc (x ∷ xs) h = elim (Bool-cases (p x)) [
    | inl hit ↦ rw (hit, select-snoc xs h) refl
    | inr miss ↦ rw (miss, select-snoc xs h) refl
  ]
