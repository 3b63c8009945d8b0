-- ===== src/Prelude/Bytes.antt =====
-- Bytes in network order, with reads that fail outside a buffer.
use Prim.Native.Nat.{ℕ, ◌+◌, ◌-◌, ◌*◌, ◌/◌, ◌%◌, ◌<◌, ◌≤◌}
use mathlib.Core.Path.{◌≡◌, refl, ◌∙◌}
use mathlib.Core.Option.{Option, none, some}
use mathlib.Core.List.{List, [], ◌∷◌, ◌++◌}
use native.Mathlib.Omega.{arith}
use roc.Prelude.Tests.{ltb, if◌then◌else◌}
use roc.Prelude.Lists.{length, get_elem?, take, drop}

infixl 5 ◌>>=◌
abbrev pub ◌>>=◌ {ℓ κ} : {A : Type ℓ} {B : Type κ} → Option A → (A → Option B) → Option B
none >>= f = none
some a >>= f = f a

-- Inversion of a chain that gives a result.
pub >>=-some {ℓ κ} :
    {A : Type ℓ} {B : Type κ} (m : Option A) (f : A → Option B) (b : B)
    → (m >>= f) ≡ some b
    → (a : A) × (m ≡ some a) × (f a ≡ some b)
>>=-some none f b h = absurd (cc)
>>=-some (some a) f b h = (a, refl, h)

-- A 16-bit and a 32-bit number at an offset, as `ntoh16` and `ntoh32` give them.
unfoldable pub read16 : List ℕ → ℕ → Option ℕ
read16 b i = do x ← get_elem? b i; y ← get_elem? b (i + 1); some (x * 256 + y)

unfoldable pub read32 : List ℕ → ℕ → Option ℕ
unfolding read16
read32 b i = do x ← read16 b i; y ← read16 b (i + 2); some (x * 65536 + y)

-- What `hton16` and `hton32` put into memory.
unfoldable pub write16 : ℕ → List ℕ
write16 v = (v / 256 % 256) ∷ (v % 256) ∷ []

unfoldable pub write32 : ℕ → List ℕ
unfolding write16
write32 v = write16 (v / 65536) ++ write16 (v % 65536)

-- `Slice::range`; `none` is its panic.
unfoldable pub range : List ℕ → ℕ → ℕ → Option (List ℕ)
range b from to =
    if ltb to from
    then none
    else if ltb (length b) to
    then none
    else some (take (to - from) (drop from b))

pub get_elem?_in : (b : List ℕ) (i : ℕ) → i < length b → (x : ℕ) × (get_elem? b i ≡ some x)
get_elem?_in [] i h = absurd (omega arith)
get_elem?_in (x ∷ b) Prim.Native.Nat.zero h = (x, refl)
get_elem?_in (x ∷ b) (Prim.Native.Nat.suc i) h = get_elem?_in b i (omega arith)

pub read16_in : (b : List ℕ) (i : ℕ) → i + 1 < length b → (x : ℕ) × (read16 b i ≡ some x)
unfolding read16
read16_in b i h =
    let (x, e) = get_elem?_in b i (omega arith) in
    let (y, k) = get_elem?_in b (i + 1) h in (x * 256 + y, rw (e, k))

pub range_in :
    (b : List ℕ) (from to : ℕ)
    → from ≤ to
    → to ≤ length b
    → range b from to ≡ some (take (to - from) (drop from b))
unfolding range
range_in b from to h k = ground arith

pub read32_in : (b : List ℕ) (i : ℕ) → i + 3 < length b → (x : ℕ) × (read32 b i ≡ some x)
unfolding read32
read32_in b i h =
    let (x, e) = read16_in b i (omega arith) in
    let (y, k) = read16_in b (i + 2) (omega arith) in (x * 65536 + y, rw (e, k))

pub range_front : (b : List ℕ) (to : ℕ) → to ≤ length b → range b 0 to ≡ some (take to b)
range_front b to k =
    let e : to - 0 ≡ to = omega arith in range_in b 0 to (omega arith) k ∙ rw e refl
