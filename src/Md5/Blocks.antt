-- ===== src/Md5/Blocks.antt =====
-- The blocks of a message, for src/common/md5.c: their lists, and the loop of `md5_update` over
-- them.
use mathlib.Core.List.{append_assoc}
use sample_sds_storage.Base.{
  drop-all_ge, sizes, ℕ, zero, suc, ◌+◌, ◌%◌, ◌^◌, ◌≤◌, ◌<◌, ◌≡◌, refl, sym, ◌∙◌, ap, inl, inr,
  true, some, List, [], ◌∷◌, ◌++◌, arith, leb, Bool-cases, length, length-take, length-drop, take,
  drop, take-append-drop,
}
use sample_sds_storage.Md5.{copy_at, update_loop}
use sample_sds_storage.Md5.Transform.{State, u32, md5_transform}

-- The blocks of a message, one after another.
abbrev pub joined : List (List ℕ) → List ℕ
joined [] = []
joined (bs ∷ blocks) = bs ++ joined blocks

abbrev pub AreBlocks : List (List ℕ) → Type 0
AreBlocks [] = Unit
AreBlocks (bs ∷ blocks) = (length bs ≡ 64) × AreBlocks blocks

-- The state after some blocks.
abbrev pub absorb : State → List (List ℕ) → State
absorb st [] = st
absorb st (bs ∷ blocks) = absorb (md5_transform st bs) blocks

pub joined-append : (xs ys : List (List ℕ)) → joined (xs ++ ys) ≡ joined xs ++ joined ys
joined-append [] ys = refl
joined-append (bs ∷ xs) ys =
    ap (λ w. bs ++ w) (joined-append xs ys) ∙ sym (append_assoc bs (joined xs) (joined ys))

pub AreBlocks-append : (xs ys : List (List ℕ)) → AreBlocks xs → AreBlocks ys → AreBlocks (xs ++ ys)
AreBlocks-append [] ys h k = k
AreBlocks-append (bs ∷ xs) ys (e, h) k = (e, AreBlocks-append xs ys h k)

pub absorb-append :
    (st : State) (xs ys : List (List ℕ)) → absorb st (xs ++ ys) ≡ absorb (absorb st xs) ys
absorb-append st [] ys = refl
absorb-append st (bs ∷ xs) ys = absorb-append (md5_transform st bs) xs ys

pub length-joined : (xs : List (List ℕ)) → AreBlocks xs → length (joined xs) % 64 ≡ 0
length-joined [] h = refl
length-joined (bs ∷ xs) (e, h) = grind (sizes, length-joined xs h)

drop-nil : (n : ℕ) → drop {A = ℕ} n [] ≡ []
drop-nil zero = refl
drop-nil (suc n) = refl

pub drop-drop : (a b : ℕ) (v : List ℕ) → drop b (drop a v) ≡ drop (a + b) v
drop-drop zero b v = ap (λ n. drop n v) (omega arith)
drop-drop (suc a) b [] = drop-nil b ∙ sym (drop-nil (suc a + b))
drop-drop (suc a) b (c ∷ v) =
    drop-drop a b v ∙ ap (λ n. drop n (c ∷ v)) (let e : suc (a + b) ≡ suc a + b = omega arith in e)

take-append : (v w : List ℕ) → take (length v) (v ++ w) ≡ v
take-append [] w = refl
take-append (c ∷ v) w = ap (λ u. c ∷ u) (take-append v w)

drop-append : (v w : List ℕ) (n : ℕ) → drop (length v + n) (v ++ w) ≡ drop n w
drop-append [] w n = ap (λ k. drop k w) (omega arith)
drop-append (c ∷ v) w n =
    ap (λ k. drop k (c ∷ v ++ w))
      (let e : suc (length v) + n ≡ suc (length v + n) = omega arith in e)
    ∙ drop-append v w n

-- What `memcpy` leaves behind the first bytes of the buffer.
pub copy_at-append :
    (tail unused input : List ℕ)
    → copy_at (length tail) input (tail ++ unused) ≡ tail ++ input ++ drop (length input) unused
copy_at-append tail unused input =
    rw (take-append tail unused, drop-append tail unused (length input)) refl

pub drop-all : (v : List ℕ) (n : ℕ) → length v ≤ n → drop n v ≡ []
drop-all v n h = drop-all_ge n v h

-- Where the loop ends: whole blocks of the input have gone into the state, and less than one is
-- left.
pub record Ended (i : ℕ) (input : List ℕ) (st : State) (out : ℕ × State) : Type 0 where
  pub blocks : List (List ℕ)
  pub whole : drop i input ≡ joined blocks ++ drop out.0 input
  pub sized : AreBlocks blocks
  pub short : length (drop out.0 input) < 64
  pub state : out.1 ≡ absorb st blocks

update_loop_more :
    (fuel i : ℕ) (input : List ℕ) (st : State)
    → leb (i + 64) (length input) ≡ true
    → i + 64 < 2 ^ 32
    → update_loop (suc fuel) i input st
      ≡ update_loop fuel (i + 64) input (md5_transform st (take 64 (drop i input)))
unfolding update_loop
update_loop_more fuel i input st h small =
    let next : u32 (i + 64) ≡ i + 64 = omega arith in rw (next, h) refl

pub update_loop-Ended :
    (fuel i : ℕ) (input : List ℕ) (st : State)
    → length input + 64 < 2 ^ 32
    → i ≤ length input
    → length input < i + fuel
    → (out : ℕ × State) × (update_loop fuel i input st ≡ some out) × Ended i input st out
unfolding update_loop
update_loop-Ended zero i input st small h enough = absurd (omega arith)
update_loop-Ended (suc fuel) i input st small h enough =
    let next : u32 (i + 64) ≡ i + 64 = omega arith in
    elim (Bool-cases (leb (i + 64) (length input))) [
      | inr last ↦
          let close : length (drop i input) < 64 = grind sizes in
          (
            (i, st),
            rw (next, last) refl,
            record { blocks = []; whole = refl; sized = tt; short = close; state = refl },
          )
      | inl more ↦
          let block = take 64 (drop i input) in
          let fits : i + 64 ≤ length input = ground arith in
          let (out, run, e) =
            update_loop-Ended fuel (i + 64) input (md5_transform st block) small fits
              (omega arith) in
          (
            out,
            update_loop_more fuel i input st more (omega arith) ∙ run,
            record {
              blocks = block ∷ e.blocks;
              whole =
                  sym (take-append-drop 64 (drop i input))
                  ∙ ap (λ w. block ++ w) (drop-drop i 64 input ∙ e.whole)
                  ∙ sym (append_assoc block (joined e.blocks) (drop out.0 input));
              sized = (omega (arith, length-take 64 (drop i input), length-drop i input), e.sized);
              short = e.short;
              state = e.state;
            },
          )
    ]
