-- ===== src/ByteView.antt =====
-- byteview.go: bytes are numbers, and a slice is the list of its bytes.
use my_cache_go.Common.{ℕ, List, [], ◌∷◌, length}

pub record ByteView : Type 0 where
  pub b : List ℕ

abbrev pub no_view : ByteView
no_view = record { b = [] }

-- `copy` into a new slice of the same length.
unfoldable pub clone_bytes : List ℕ → List ℕ
clone_bytes [] = []
clone_bytes (x ∷ xs) = x ∷ clone_bytes xs

abbrev pub len : ByteView → ℕ
len v = length v.b

-- `ByteSLice`.
unfoldable pub byte_slice : ByteView → List ℕ
byte_slice v = clone_bytes v.b
