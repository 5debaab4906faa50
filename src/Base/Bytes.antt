-- ===== src/Base/Bytes.antt =====
-- Bytes in network order. `htons`, `htonl` and their inverses on a value that is then copied to or from memory
-- leave its bytes with the highest first, on every host.
use Prim.Native.Nat.{ℕ, ◌+◌, ◌*◌, ◌/◌, ◌%◌, ◌^◌}
use mathlib.Core.Path.{◌≡◌}
use mathlib.Core.List.{List, [], ◌∷◌, ◌++◌}
use native.Mathlib.Omega.{arith}

abbrev pub be16 : ℕ → List ℕ
be16 v = (v / 2 ^ 8 % 256) ∷ (v % 256) ∷ []

abbrev pub be32 : ℕ → List ℕ
be32 v = (v / 2 ^ 24 % 256) ∷ (v / 2 ^ 16 % 256) ∷ (v / 2 ^ 8 % 256) ∷ (v % 256) ∷ []

abbrev pub be64 : ℕ → List ℕ
be64 v = be32 (v / 2 ^ 32) ++ be32 v

abbrev pub from_be_acc : ℕ → List ℕ → ℕ
from_be_acc acc [] = acc
from_be_acc acc (b ∷ bs) = from_be_acc (acc * 256 + b) bs

abbrev pub from_be : List ℕ → ℕ
from_be = from_be_acc 0

pub from_be-be16 : (v : ℕ) → from_be (be16 v) ≡ v % 2 ^ 16
from_be-be16 v = omega arith

pub from_be-be32 : (v : ℕ) → from_be (be32 v) ≡ v % 2 ^ 32
from_be-be32 v = omega arith

pub from_be-be64 : (v : ℕ) → from_be (be64 v) ≡ v % 2 ^ 64
from_be-be64 v = omega arith
