-- ===== src/LinkedList/Chain.antt =====
-- What a list of src/common/list.c stands for: its nodes in order, linked both ways.
use sample_sds_storage.Base.{
  ◌≡◌, ◌≢◌, refl, ap, Bool, true, false, ◌||◌, Option, some, List, [], ◌∷◌, ◌++◌, arith, ◌==◌,
  length, ◌<◌, ◌^◌,
}
use sample_sds_storage.LinkedList.{Ptr, null, ListNode, list_node, Heap}

-- Address and value of each node.
abbrev pub Cells : Type 0 → Type 0
Cells A = List (Ptr × A)

module _ {A : Type 0} where
  abbrev pub first : Ptr → Cells A → Ptr
  first end [] = end
  first end ((p, _) ∷ cells) = p

  abbrev pub last : Ptr → Cells A → Ptr
  last start [] = start
  last start ((p, _) ∷ cells) = last p cells

  abbrev pub has : Ptr → Cells A → Bool
  has a [] = false
  has a ((p, _) ∷ cells) = (p == a) || has a cells

  -- From `prev` the nodes `cells` lead to `end`, and each knows the one before it.
  abbrev pub Chain : (Ptr → Option (ListNode A)) → Ptr → Ptr → Cells A → Type 0
  Chain nodes prev end [] = Unit
  Chain nodes prev end ((p, v) ∷ cells) =
      (p ≢ null)
      × (nodes p ≡ some (list_node (first end cells) prev v))
      × (has p cells ≡ false)
      × Chain nodes p end cells

  -- The list at `lt` holds `cells`.
  pub record IsList (h : Heap A) (lt : Ptr) (cells : Cells A) : Type 0 where
    pub ne_null : lt ≢ null
    pub cb : Bool
    pub header :
        h.lists lt
        ≡ some (record {
          head = first null cells;
          tail = last null cells;
          size = length cells;
          has_cb = cb;
        })
    pub chain : Chain h.nodes null null cells
    pub count : length cells < 2 ^ 64

  pub has-append : (a : Ptr) (xs ys : Cells A) → has a (xs ++ ys) ≡ (has a xs || has a ys)
  has-append a [] ys = refl
  has-append a ((p, _) ∷ xs) ys = ground (arith, has-append a xs ys)

  -- The laws on which nodes a list has, for `grind`.
  pub ruleset members = (arith, has-append)

  pub first-append : (end : Ptr) (xs ys : Cells A) → first end (xs ++ ys) ≡ first (first end ys) xs
  first-append end [] ys = refl
  first-append end (x ∷ xs) ys = refl

  pub last-append :
      (start : Ptr) (xs ys : Cells A) → last start (xs ++ ys) ≡ last (last start xs) ys
  last-append start [] ys = refl
  last-append start ((p, _) ∷ xs) ys = last-append p xs ys

  -- A change elsewhere leaves a chain as it is.
  pub frame :
      {nodes nodes' : Ptr → Option (ListNode A)} (prev end : Ptr) (cells : Cells A)
      → Chain nodes prev end cells
      → ((a : Ptr) → has a cells ≡ true → nodes' a ≡ nodes a)
      → Chain nodes' prev end cells
  frame prev end [] c same = tt
  frame prev end ((p, v) ∷ cells) (ne, at, out, c) same =
      (ne, ground (arith, same p), out, frame p end cells c (λ a i. same a (ground arith)))

  pub Chain-split :
      (nodes : Ptr → Option (ListNode A)) (prev end : Ptr) (xs ys : Cells A)
      → Chain nodes prev end (xs ++ ys)
      → Chain nodes prev (first end ys) xs
        × Chain nodes (last prev xs) end ys
        × ((a : Ptr) → has a xs ≡ true → has a ys ≡ false)
  Chain-split nodes prev end [] ys c = (tt, c, λ a i. cc)
  Chain-split nodes prev end ((p, v) ∷ xs) ys (ne, at, out, c) =
      let (front, back, apart) = Chain-split nodes p end xs ys c in
      (
        (ne, rw (first-append end xs ys) at at, ground (arith, has-append p xs ys), front),
        back,
        λ a i. ground (arith, apart a, has-append p xs ys),
      )

  pub Chain-append :
      (nodes : Ptr → Option (ListNode A)) (prev end : Ptr) (xs ys : Cells A)
      → Chain nodes prev (first end ys) xs
      → Chain nodes (last prev xs) end ys
      → ((a : Ptr) → has a xs ≡ true → has a ys ≡ false)
      → Chain nodes prev end (xs ++ ys)
  Chain-append nodes prev end [] ys front back apart = back
  Chain-append nodes prev end ((p, v) ∷ xs) ys (ne, at, out, front) back apart = (
    ne,
    rw (first-append end xs ys) at,
    ground (arith, apart p, has-append p xs ys),
    Chain-append nodes p end xs ys front back (λ a i. apart a (ground arith)),
  )

  -- The last node of a chain that is not empty.
  pub last_cell :
      (c : Ptr × A) (cells : Cells A)
      → (init : Cells A) × (d : Ptr × A) × (c ∷ cells ≡ init ++ d ∷ [])
  last_cell c [] = ([], c, refl)
  last_cell c (d ∷ cells) =
      let (init, e, same) = last_cell d cells in (c ∷ init, e, ap (λ r. c ∷ r) same)
