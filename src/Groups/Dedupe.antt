-- ===== src/Groups/Dedupe.antt =====
-- The cache of frame ids: its size, and what it remembers.
use nexus_grid_grid.Prelude.{
  ℕ, suc, ◌≤◌, ◌<◌, ◌≡◌, refl, sym, ap, ◌∙◌, Bool, true, false, inl, inr, List, [], ◌∷◌, ◌++◌,
  String, length, drop, select, contains, discard, length-append, ltb, if◌then◌else◌, ◌==◌,
  text_key, Bool-cases, eq_of_beq, beq_refl, beq_comm, arith,
}
use nexus_grid_grid.Groups.Inbox.{seen}

-- An id is in the list, with at most some number of ids behind it.
abbrev pub Recent : ℕ → String → List String → Type 0
Recent k id ids =
    (front : List String) × (back : List String) × ((ids ≡ front ++ id ∷ back) × (length back ≤ k))

select-append :
    (keep : String → Bool) (xs ys : List String)
    → select keep (xs ++ ys) ≡ select keep xs ++ select keep ys
select-append keep [] ys = refl
select-append keep (x ∷ xs) ys = ground (arith, select-append keep xs ys)

append_assoc : (xs ys zs : List String) → (xs ++ ys) ++ zs ≡ xs ++ (ys ++ zs)
append_assoc [] ys zs = refl
append_assoc (x ∷ xs) ys zs = ap (λ rest. x ∷ rest) (append_assoc xs ys zs)

length-discard-le : (a : String) (xs : List String) → length (discard a xs) ≤ length xs
length-discard-le a [] = ground arith
length-discard-le a (x ∷ xs) = ground (arith, length-discard-le a xs)

length-discard-lt :
    (a : String) (xs : List String) → contains xs a ≡ true → length (discard a xs) < length xs
length-discard-lt a [] h = ground arith
length-discard-lt a (x ∷ xs) h =
    ground (arith, beq_comm a x, length-discard-lt a xs, length-discard-le a xs)

contains-middle : (front back : List String) (id : String) → contains (front ++ id ∷ back) id ≡ true
contains-middle [] back id = ground (arith, beq_refl id)
contains-middle (x ∷ front) back id = ground (arith, contains-middle front back id)

-- The cache holds no more ids than its capacity.
pub seen-bounded :
    (capacity : ℕ) (id : String) (ids : List String)
    → length ids ≤ capacity
    → length (seen capacity id ids).0 ≤ capacity
unfolding seen
seen-bounded capacity id ids h = ground (
  arith,
  length-append ids (id ∷ []),
  length-append (discard id ids) (id ∷ []),
  length-discard-lt id ids,
)

pub Recent-contains :
    (k : ℕ) (id : String) (ids : List String) → Recent k id ids → contains ids id ≡ true
Recent-contains k id ids (front, back, (e, le)) =
    ap (λ xs. contains xs id) e ∙ contains-middle front back id

-- One more id behind.
Recent-snoc :
    (k : ℕ) (id x : String) (ids : List String)
    → Recent k id ids
    → Recent (suc k) id (ids ++ x ∷ [])
Recent-snoc k id x ids (front, back, (e, le)) = (
  front,
  back ++ x ∷ [],
  (
    ap (λ xs. xs ++ x ∷ []) e ∙ append_assoc front (id ∷ back) (x ∷ []),
    omega (arith, length-append back (x ∷ []), le),
  ),
)

discard-other :
    (x id : String) (back : List String)
    → (id == x) ≡ false
    → discard x (id ∷ back) ≡ id ∷ discard x back
discard-other x id back other = rw other refl

Recent-discard :
    (k : ℕ) (id x : String) (ids : List String)
    → (id == x) ≡ false
    → Recent k id ids
    → Recent k id (discard x ids)
Recent-discard k id x ids other (front, back, (e, le)) = (
  discard x front,
  discard x back,
  (
    ap (discard x) e
        ∙ select-append (λ y. if y == x then false else true) front (id ∷ back)
        ∙ ap (◌++◌ (discard x front)) (discard-other x id back other),
    omega (arith, length-discard-le x back, le),
  ),
)

-- The oldest id goes: it is another, as long as the cache holds more than stands behind.
Recent-drop :
    (k : ℕ) (id : String) (ids : List String)
    → suc k < length ids
    → Recent k id ids
    → Recent k id (drop 1 ids)
Recent-drop k id ids h ([], back, (e, le)) = ground (arith, ap length e, le)
Recent-drop k id ids h (y ∷ front, back, (e, le)) = (front, back, (ap (drop 1) e, le))

Recent-later : (k : ℕ) (id : String) (ids : List String) → Recent k id ids → Recent (suc k) id ids
Recent-later k id ids (front, back, (e, le)) = (front, back, (e, omega (arith, le)))

-- The id just seen is the newest.
pub seen-newest :
    (capacity : ℕ) (id : String) (ids : List String)
    → (id == "") ≡ false
    → 0 < capacity
    → Recent 0 id (seen capacity id ids).0
unfolding seen
seen-newest capacity id ids named room = rw named (elim (Bool-cases (contains ids id)) [
  | inl e ↦ rw e (discard id ids, [], (refl, omega arith))
  | inr e ↦ rw e (elim (Bool-cases (ltb capacity (length (ids ++ id ∷ [])))) [
    | inr fits ↦ rw fits (ids, [], (refl, omega arith))
    | inl full ↦
        rw full (Recent-drop 0 id (ids ++ id ∷ []) (ground arith) (ids, [], (refl, omega arith)))
  ])
])

moved :
    (k : ℕ) (id x : String) (ids : List String)
    → Recent k id ids
    → Recent (suc k) id (discard x ids ++ x ∷ [])
moved k id x ids h = elim (Bool-cases (id == x)) [
  | inl same ↦ (
    discard x ids,
    [],
    (ap (λ y. discard x ids ++ y ∷ []) (sym (eq_of_beq id x same)), omega arith),
  )
  | inr other ↦ Recent-snoc k id x (discard x ids) (Recent-discard k id x ids other h)
]

pub seen-Recent :
    (capacity k : ℕ) (id x : String) (ids : List String)
    → suc k < capacity
    → Recent k id ids
    → Recent (suc k) id (seen capacity x ids).0
unfolding seen
seen-Recent capacity k id x ids room h = elim (Bool-cases (x == "")) [
  | inl blank ↦ rw blank (Recent-later k id ids h)
  | inr named ↦ rw named (elim (Bool-cases (contains ids x)) [
    | inl e ↦ rw e (moved k id x ids h)
    | inr e ↦ rw e (elim (Bool-cases (ltb capacity (length (ids ++ x ∷ [])))) [
      | inr fits ↦ rw fits (Recent-snoc k id x ids h)
      | inl full ↦
          rw full (Recent-drop (suc k) id (ids ++ x ∷ []) (ground arith) (Recent-snoc k id x ids h))
    ])
  ])
]
