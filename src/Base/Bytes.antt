-- ===== src/Base/Bytes.antt =====
-- C memory that is read through a pointer: `mem i` is the byte `i` places behind the pointer.
use Prim.Native.Nat.{ℕ, zero, suc, ◌+◌, ◌≤◌, ◌<◌}
use mathlib.Core.Path.{◌≡◌, refl, ap, ap₂}
use mathlib.Core.List.{List, [], ◌∷◌, ◌++◌}
use native.Mathlib.Omega.{arith}
use sming_coap.Base.Lists.{length, get_or}

abbrev pub Memory : Type 0
Memory = ℕ → ℕ

-- An array that holds a list; what lies behind the array is read as zeros.
abbrev pub of_list : List ℕ → Memory
of_list bs i = get_or bs i 0

-- `memcpy(dest, &mem[i], n)`: the bytes that are copied.
abbrev pub read : Memory → ℕ → ℕ → List ℕ
read mem i zero = []
read mem i (suc n) = mem i ∷ read mem (suc i) n

-- The memory holds these bytes from place `i` on.
abbrev pub Holds : Memory → ℕ → List ℕ → Type 0
Holds mem i [] = Unit {0}
Holds mem i (b ∷ bs) = (mem i ≡ b) × Holds mem (suc i) bs

-- Two memories have the same first `n` bytes.
abbrev pub Agree : ℕ → Memory → Memory → Type 0
Agree n mem mem' = (i : ℕ) → i < n → mem i ≡ mem' i

pub Holds-append_left :
    (mem : Memory) (i : ℕ) (xs ys : List ℕ) → Holds mem i (xs ++ ys) → Holds mem i xs
Holds-append_left mem i [] ys h = tt
Holds-append_left mem i (x ∷ xs) ys (e, h) = (e, Holds-append_left mem (suc i) xs ys h)

pub Holds-at : (mem : Memory) (i j : ℕ) (bs : List ℕ) → i ≡ j → Holds mem i bs → Holds mem j bs
Holds-at mem i j bs e h = rw (← e) h

pub Holds-append_right :
    (mem : Memory) (i j : ℕ) (xs ys : List ℕ)
    → i + length xs ≡ j
    → Holds mem i (xs ++ ys)
    → Holds mem j ys
Holds-append_right mem i j [] ys e h = let e' : i ≡ j = omega arith in rw (← e') h
Holds-append_right mem i j (x ∷ xs) ys e (_, h) =
    Holds-append_right mem (suc i) j xs ys (omega arith) h

pub read-Holds : (mem : Memory) (i : ℕ) (bs : List ℕ) → Holds mem i bs → read mem i (length bs) ≡ bs
read-Holds mem i [] h = refl
read-Holds mem i (b ∷ bs) (e, h) = ap₂ ◌∷◌ e (read-Holds mem (suc i) bs h)

pub read-Agree :
    (mem mem' : Memory) (i n k : ℕ) → Agree k mem mem' → i + n ≤ k → read mem i n ≡ read mem' i n
read-Agree mem mem' i zero k a h = refl
read-Agree mem mem' i (suc n) k a h =
    ap₂ ◌∷◌ (a i (omega arith)) (read-Agree mem mem' (suc i) n k a (omega arith))

Holds-shift :
    (mem : Memory) (b : ℕ) (i : ℕ) (bs : List ℕ)
    → Holds mem i bs
    → (whole : List ℕ) → ((j : ℕ) → mem j ≡ of_list whole j)
    → Holds (of_list (b ∷ whole)) (suc i) bs
Holds-shift mem b i [] h whole same = tt
Holds-shift mem b i (x ∷ bs) (e, h) whole same =
    (omega (arith, same i), Holds-shift mem b (suc i) bs h whole same)

pub of_list-Holds : (bs : List ℕ) → Holds (of_list bs) 0 bs
of_list-Holds [] = tt
of_list-Holds (b ∷ bs) = (refl, Holds-shift (of_list bs) b 0 bs (of_list-Holds bs) bs (λ j. refl))

pub length-read : (mem : Memory) (i n : ℕ) → length (read mem i n) ≡ n
length-read mem i zero = refl
length-read mem i (suc n) = ap suc (length-read mem (suc i) n)

pub of_list-Agree : (xs ys : List ℕ) → Agree (length xs) (of_list xs) (of_list (xs ++ ys))
of_list-Agree [] ys i h = elim h [ ]
of_list-Agree (x ∷ xs) ys zero h = refl
of_list-Agree (x ∷ xs) ys (suc i) h = of_list-Agree xs ys i (omega arith)
