-- ===== src/Ensemble/Names.antt =====
-- How generic/itclEnsemble.c compares names: the first characters as `char`, which is signed or not by
-- the choice of the compiler, and the rest by `strcmp` or `strncmp`, which read `unsigned char`.
use itcl.Prelude.{
  ◌≢◌, ap, sym, ◌∙◌, ℕ, zero, suc, ◌+◌, ◌-◌, ◌≡◌, refl, ◌≤◌, Bool, true, false, ◌&&◌, [], ◌∷◌, ◌==◌,
  ltb, if◌then◌else◌, length, arith,
}
use itcl.Prelude.Bytes.{Bytes}

-- The sign of the result of a comparison.
pub data Order : Type 0 where
  less same greater : Order

abbrev pub is_same : Order → Bool
is_same same = true
is_same _ = false

abbrev pub first_char : Bytes → ℕ
first_char [] = 0
first_char (c ∷ cs) = c

-- The order of the values of `char`, for both choices.
abbrev pub rank : Bool → ℕ → ℕ
rank false c = c
rank true c = if ltb c 128 then c + 128 else if ltb c 256 then c - 128 else c

-- The order of two characters that differ.
abbrev pub differ : ℕ → ℕ → Order
differ x y = if ltb x y then less else greater

abbrev pub strcmp : Bytes → Bytes → Order
strcmp [] [] = same
strcmp [] (y ∷ ys) = less
strcmp (x ∷ xs) [] = greater
strcmp (x ∷ xs) (y ∷ ys) = if x == y then strcmp xs ys else differ x y

abbrev pub strncmp : Bytes → Bytes → ℕ → Order
strncmp xs ys zero = same
strncmp [] [] (suc n) = same
strncmp [] (y ∷ ys) (suc n) = less
strncmp (x ∷ xs) [] (suc n) = greater
strncmp (x ∷ xs) (y ∷ ys) (suc n) = if x == y then strncmp xs ys n else differ x y

-- The comparison of a round of both searches, with `rest` for equal first characters.
abbrev pub by_first : Bool → Bytes → Bytes → Order → Order
by_first signed a b rest =
    if first_char a == first_char b
    then rest
    else differ (rank signed (first_char a)) (rank signed (first_char b))

abbrev pub name_order : Bool → Bytes → Bytes → Order
name_order signed a b = by_first signed a b (strcmp a b)

abbrev pub abbreviation_order : Bool → Bytes → Bytes → Order
abbreviation_order signed a b = by_first signed a b (strncmp a b (length a))

-- `for (min=1; *p == *q && *p != '\0' && *q != '\0'; min++)`
abbrev pub count_min : Bytes → Bytes → ℕ → ℕ
count_min [] ys min = min
count_min (x ∷ xs) [] min = min
count_min (x ∷ xs) (y ∷ ys) min = if x == y then count_min xs ys (min + 1) else min

-- The names of a sorted list are in this order.
abbrev pub Precedes : Bool → Bytes → Bytes → Type 0
Precedes signed a b = name_order signed a b ≡ less

strcmp_trans : (a b c : Bytes) → strcmp a b ≡ less → strcmp b c ≡ less → strcmp a c ≡ less
strcmp_trans [] [] [] h k = h
strcmp_trans [] (y ∷ ys) [] h k = ground (arith, k)
strcmp_trans [] b (z ∷ zs) h k = refl
strcmp_trans (x ∷ xs) [] c h k = ground (arith, h)
strcmp_trans (x ∷ xs) (y ∷ ys) [] h k = ground (arith, k)
strcmp_trans (x ∷ xs) (y ∷ ys) (z ∷ zs) h k = ground (arith, h, k, strcmp_trans xs ys zs)

pub Precedes-trans : (s : Bool) (a b c : Bytes) → Precedes s a b → Precedes s b c → Precedes s a c
Precedes-trans false a b c h k = ground (arith, h, k, strcmp_trans a b c)
Precedes-trans true a b c h k = ground (arith, h, k, strcmp_trans a b c)

strcmp_refl : (a : Bytes) → strcmp a a ≡ same
strcmp_refl [] = refl
strcmp_refl (x ∷ xs) = ground (arith, strcmp_refl xs)

pub name_order_refl : (s : Bool) (a : Bytes) → name_order s a a ≡ same
name_order_refl s a = ground (arith, strcmp_refl a)

-- A name that compares otherwise is another one.
pub name_order-ne : (s : Bool) (a b : Bytes) (o : Order) → name_order s a b ≡ o → o ≢ same → a ≢ b
name_order-ne s a b o q n r = n (sym q ∙ (ap (name_order s a) (sym r) ∙ name_order_refl s a))

eq_of_strcmp : (a b : Bytes) → strcmp a b ≡ same → a ≡ b
eq_of_strcmp [] [] h = refl
eq_of_strcmp [] (y ∷ ys) h = ground arith
eq_of_strcmp (x ∷ xs) [] h = ground arith
eq_of_strcmp (x ∷ xs) (y ∷ ys) h = ground (arith, h, eq_of_strcmp xs ys)

pub eq_of_name_order : (s : Bool) (a b : Bytes) → name_order s a b ≡ same → a ≡ b
eq_of_name_order s a b h = ground (arith, h, eq_of_strcmp a b)

strcmp-greater : (n a b : Bytes) → strcmp n b ≡ greater → strcmp a b ≡ less → strcmp n a ≡ greater
strcmp-greater [] a [] h k = ground (arith, h)
strcmp-greater [] a (z ∷ zs) h k = ground (arith, h)
strcmp-greater (x ∷ xs) [] b h k = refl
strcmp-greater (x ∷ xs) (y ∷ ys) [] h k = ground (arith, k)
strcmp-greater (x ∷ xs) (y ∷ ys) (z ∷ zs) h k = ground (arith, h, k, strcmp-greater xs ys zs)

strcmp-flip : (a b : Bytes) → strcmp a b ≡ greater → strcmp b a ≡ less
strcmp-flip [] [] h = ground (arith, h)
strcmp-flip [] (y ∷ ys) h = ground (arith, h)
strcmp-flip (x ∷ xs) [] h = refl
strcmp-flip (x ∷ xs) (y ∷ ys) h = ground (arith, h, strcmp-flip xs ys)

pub Precedes-flip : (s : Bool) (a b : Bytes) → name_order s a b ≡ greater → Precedes s b a
Precedes-flip false a b h = ground (arith, h, strcmp-flip a b)
Precedes-flip true a b h = ground (arith, h, strcmp-flip a b)

pub name_order-greater :
    (s : Bool) (n a b : Bytes)
    → name_order s n b ≡ greater
    → Precedes s a b
    → name_order s n a ≡ greater
name_order-greater false n a b h k = ground (arith, h, k, strcmp-greater n a b)
name_order-greater true n a b h k = ground (arith, h, k, strcmp-greater n a b)

-- What a later name is compared with is not before what an earlier one is compared with.
strncmp-less :
    (n a b : Bytes)
    → strncmp n a (length n) ≡ less
    → strcmp a b ≡ less
    → strncmp n b (length n) ≡ less
strncmp-less [] a b h k = h
strncmp-less (x ∷ xs) [] [] h k = ground (arith, h)
strncmp-less (x ∷ xs) [] (z ∷ zs) h k = ground (arith, h)
strncmp-less (x ∷ xs) (y ∷ ys) [] h k = ground (arith, k)
strncmp-less (x ∷ xs) (y ∷ ys) (z ∷ zs) h k = ground (arith, h, k, strncmp-less xs ys zs)

strncmp-greater :
    (n a b : Bytes)
    → strncmp n b (length n) ≡ greater
    → strcmp a b ≡ less
    → strncmp n a (length n) ≡ greater
strncmp-greater [] a b h k = h
strncmp-greater (x ∷ xs) [] b h k = refl
strncmp-greater (x ∷ xs) (y ∷ ys) [] h k = ground (arith, k)
strncmp-greater (x ∷ xs) (y ∷ ys) (z ∷ zs) h k = ground (arith, h, k, strncmp-greater xs ys zs)

pub abbreviation-less :
    (s : Bool) (n a b : Bytes)
    → abbreviation_order s n a ≡ less
    → Precedes s a b
    → abbreviation_order s n b ≡ less
abbreviation-less false n a b h k = ground (arith, h, k, strncmp-less n a b)
abbreviation-less true n a b h k = ground (arith, h, k, strncmp-less n a b)

pub abbreviation-greater :
    (s : Bool) (n a b : Bytes)
    → abbreviation_order s n b ≡ greater
    → Precedes s a b
    → abbreviation_order s n a ≡ greater
abbreviation-greater false n a b h k = ground (arith, h, k, strncmp-greater n a b)
abbreviation-greater true n a b h k = ground (arith, h, k, strncmp-greater n a b)

-- The first is a prefix of the second.
abbrev pub starts : Bytes → Bytes → Bool
starts [] ys = true
starts (x ∷ xs) [] = false
starts (x ∷ xs) (y ∷ ys) = (x == y) && starts xs ys

pub starts_refl : (n : Bytes) → starts n n ≡ true
starts_refl [] = refl
starts_refl (x ∷ xs) = ground (arith, starts_refl xs)

pub strncmp-starts : (n a : Bytes) → starts n a ≡ is_same (strncmp n a (length n))
strncmp-starts [] a = refl
strncmp-starts (x ∷ xs) [] = refl
strncmp-starts (x ∷ xs) (y ∷ ys) = ground (arith, strncmp-starts xs ys)

pub abbreviation-starts :
    (s : Bool) (c : ℕ) (cs a : Bytes)
    → starts (c ∷ cs) a ≡ is_same (abbreviation_order s (c ∷ cs) a)
abbreviation-starts s c cs [] = ground arith
abbreviation-starts s c cs (y ∷ ys) = ground (arith, strncmp-starts cs ys)

count_min-suc : (p q : Bytes) (m : ℕ) → count_min p q (m + 1) ≡ count_min p q m + 1
count_min-suc [] q m = refl
count_min-suc (x ∷ xs) [] m = refl
count_min-suc (x ∷ xs) (y ∷ ys) m = ground (arith, count_min-suc xs ys (m + 1))

pub count_min-bound : (p q : Bytes) (m : ℕ) → m ≤ count_min p q m
count_min-bound [] q m = omega arith
count_min-bound (x ∷ xs) [] m = omega arith
count_min-bound (x ∷ xs) (y ∷ ys) m = ground (arith, count_min-bound xs ys (m + 1))

-- A prefix of a name is one of another name if it is shorter than what tells the two apart.
pub starts-count_min :
    (n p q : Bytes) → starts n p ≡ true → starts n q ≡ ltb (length n) (count_min p q 1)
starts-count_min [] p q h = ground (arith, count_min-bound p q 1)
starts-count_min (x ∷ xs) [] q h = ground (arith, h)
starts-count_min (x ∷ xs) (y ∷ ys) [] h = ground arith
starts-count_min (x ∷ xs) (y ∷ ys) (z ∷ zs) h =
    ground (arith, h, starts-count_min xs ys zs, count_min-suc ys zs 1)

pub length-starts : (n p : Bytes) → starts n p ≡ true → length n ≤ length p
length-starts [] p h = omega arith
length-starts (x ∷ xs) [] h = ground (arith, h)
length-starts (x ∷ xs) (y ∷ ys) h = ground (arith, h, length-starts xs ys)

pub eq_of_starts : (n p : Bytes) → starts n p ≡ true → length p ≤ length n → n ≡ p
eq_of_starts [] [] h k = refl
eq_of_starts [] (y ∷ ys) h k = ground (arith, k)
eq_of_starts (x ∷ xs) [] h k = ground (arith, h)
eq_of_starts (x ∷ xs) (y ∷ ys) h k = ground (arith, h, k, eq_of_starts xs ys)

-- A proper prefix comes first.
strcmp-starts : (n p : Bytes) → starts n p ≡ true → strcmp p n ≡ less → ⊥
strcmp-starts [] [] h k = ground (arith, k)
strcmp-starts [] (y ∷ ys) h k = ground (arith, k)
strcmp-starts (x ∷ xs) [] h k = ground (arith, h)
strcmp-starts (x ∷ xs) (y ∷ ys) h k = ground (arith, h, k, strcmp-starts xs ys)

pub starts-Precedes :
    (s : Bool) (c : ℕ) (cs p : Bytes) → starts (c ∷ cs) p ≡ true → Precedes s p (c ∷ cs) → ⊥
starts-Precedes s c cs [] h k = ground (arith, h)
starts-Precedes s c cs (y ∷ ys) h k = ground (arith, h, k, strcmp-starts cs ys)
