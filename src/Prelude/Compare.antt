-- ===== src/Prelude/Compare.antt =====
-- Three-way comparisons, and their lexicographic combination: Python's order on tuples.
use Prim.Native.Nat.{compare, Ordering}
use Prim.Native.Char.{code}
use Prim.Native.String.{String, compare as compare_text}
use Prim.Native.String.compare as text_clauses
use text.Mathlib.TextPositions.{compare_refl}
use mathlib.Core.Path.{◌≡◌, refl, sym}
use mathlib.Core.Bool.{Bool, true, false}
use native.Mathlib.Omega.{arith}
use compute_connect.Prelude.Int.{compare_ℤ}

-- the answer of the first comparison that is not "equal"
abbrev pub then_by : Ordering → Ordering → Ordering
then_by Ordering.lt o = Ordering.lt
then_by Ordering.eq o = o
then_by Ordering.gt o = Ordering.gt

abbrev pub is_not_gt : Ordering → Bool
is_not_gt Ordering.gt = false
is_not_gt _ = true

abbrev pub swap : Ordering → Ordering
swap Ordering.lt = Ordering.gt
swap Ordering.eq = Ordering.eq
swap Ordering.gt = Ordering.lt

-- `False < True`
abbrev pub compare_bool : Bool → Bool → Ordering
compare_bool false true = Ordering.lt
compare_bool true false = Ordering.gt
compare_bool _ _ = Ordering.eq

pub record IsOrder {ℓ} {A : Type ℓ} (cmp : A → A → Ordering) : Type ℓ where
  pub self : (a : A) → cmp a a ≡ Ordering.eq
  pub flip : (a b : A) → cmp b a ≡ swap (cmp a b)
  pub chain :
      (a b c : A)
      → is_not_gt (cmp a b) ≡ true
      → is_not_gt (cmp b c) ≡ true
      → cmp a c ≡ then_by (cmp a b) (cmp b c)

pub bool_IsOrder : IsOrder compare_bool
bool_IsOrder = record {
  self = λ a. ground arith;
  flip = λ a b. ground arith;
  chain = λ a b c h k. ground arith;
}

pub nat_IsOrder : IsOrder compare
nat_IsOrder = record {
  self = λ a. ground arith;
  flip = λ a b. ground arith;
  chain = λ a b c h k. ground arith;
}

pub int_IsOrder : IsOrder compare_ℤ
int_IsOrder = record {
  self = λ a. ground arith;
  flip = λ a b. ground arith;
  chain = λ a b c h k. ground arith;
}

-- the facts about two components of a comparison
swap-then_by : (x y : Ordering) → swap (then_by x y) ≡ then_by (swap x) (swap y)
swap-then_by x y = ground arith

chain_step :
    (x x' y y' xx yy : Ordering)
    → (is_not_gt x ≡ true → is_not_gt x' ≡ true → xx ≡ then_by x x')
    → (is_not_gt y ≡ true → is_not_gt y' ≡ true → yy ≡ then_by y y')
    → is_not_gt (then_by x y) ≡ true
    → is_not_gt (then_by x' y') ≡ true
    → then_by xx yy ≡ then_by (then_by x y) (then_by x' y')
chain_step x x' y y' xx yy h k a b = ground arith

module _ {ℓ} {A : Type ℓ} where
  abbrev pub lex : (A → A → Ordering) → (A → A → Ordering) → A → A → Ordering
  lex c d a b = then_by (c a b) (d a b)

  pub lex-IsOrder : {c d : A → A → Ordering} → IsOrder c → IsOrder d → IsOrder (lex c d)
  lex-IsOrder {c} {d} hc hd = record {
    self = λ a. rw (hc.self a, hd.self a);
    flip = λ a b. rw (hc.flip a b, hd.flip a b) (sym (swap-then_by (c a b) (d a b)));
    chain = λ x y z.
        chain_step (c x y) (c y z) (d x y) (d y z) (c x z) (d x z) (hc.chain x y z)
          (hd.chain x y z);
  }

  abbrev pub on {κ} : {B : Type κ} → (A → B) → (B → B → Ordering) → A → A → Ordering
  on f c a b = c (f a) (f b)

  pub on-IsOrder {κ} :
      {B : Type κ} {c : B → B → Ordering} (f : A → B) → IsOrder c → IsOrder (on f c)
  on-IsOrder f h = record {
    self = λ a. h.self (f a);
    flip = λ a b. h.flip (f a) (f b);
    chain = λ a b c. h.chain (f a) (f b) (f c);
  }

text_flip : (s t : String) → compare_text t s ≡ swap (compare_text s t)
text_flip String.[] String.[] = rw text_clauses.nil-nil
text_flip String.[] (String.◌∷◌ d t) = rw (text_clauses.nil-cons d t, text_clauses.cons-nil d t)
text_flip (String.◌∷◌ c s) String.[] = rw (text_clauses.nil-cons c s, text_clauses.cons-nil c s)
text_flip (String.◌∷◌ c s) (String.◌∷◌ d t) =
    rw
      (
        text_clauses.cons-cons c d s t,
        text_clauses.cons-cons d c t s,
        text_flip s t,
        nat_IsOrder.flip (code c) (code d),
      )
      (sym (swap-then_by (compare (code c) (code d)) (compare_text s t)))

text_chain :
    (r s t : String)
    → is_not_gt (compare_text r s) ≡ true
    → is_not_gt (compare_text s t) ≡ true
    → compare_text r t ≡ then_by (compare_text r s) (compare_text s t)
text_chain String.[] String.[] t h k = refl
text_chain String.[] (String.◌∷◌ d s) String.[] h k = cc (k, text_clauses.cons-nil d s)
text_chain String.[] (String.◌∷◌ d s) (String.◌∷◌ e t) h k =
    rw (text_clauses.nil-cons d s, text_clauses.nil-cons e t)
text_chain (String.◌∷◌ c r) String.[] t h k = cc (h, text_clauses.cons-nil c r)
text_chain (String.◌∷◌ c r) (String.◌∷◌ d s) String.[] h k = cc (k, text_clauses.cons-nil d s)
text_chain (String.◌∷◌ c r) (String.◌∷◌ d s) (String.◌∷◌ e t) h k =
    rw
      (
        text_clauses.cons-cons c d r s,
        text_clauses.cons-cons d e s t,
        text_clauses.cons-cons c e r t,
      )
      (chain_step (compare (code c) (code d)) (compare (code d) (code e)) (compare_text r s)
        (compare_text s t) (compare (code c) (code e)) (compare_text r t)
        (nat_IsOrder.chain (code c) (code d) (code e)) (text_chain r s t)
        (rw (text_clauses.cons-cons c d r s) at h) (rw (text_clauses.cons-cons d e s t) at k))

pub text_IsOrder : IsOrder compare_text
text_IsOrder = record { self = compare_refl; flip = text_flip; chain = text_chain }
