-- ===== src/Dcm.antt =====
-- src/dcm.rs: the wrapper of a `.manifest` file.
pub mod Wrapping
use msdelta.Base.{
  ℕ, Bool, ◌&&◌, not, List, [], ◌∷◌, ◌++◌, length, take, drop, ltb, leb, if◌then◌else◌,
}
use msdelta.Base.Bytes.{eq_bytes}
use msdelta.Errors.{truncated, bad_magic}
use msdelta.Errors.{Result, ok, err}

-- b"DCM\x01"
abbrev pub magic : List ℕ
magic = 0x44 ∷ 0x43 ∷ 0x4d ∷ 0x01 ∷ []

unfoldable pub is_dcm : List ℕ → Bool
is_dcm buf = leb 4 (length buf) && eq_bytes (take 4 buf) magic

unfoldable pub strip : List ℕ → Result (List ℕ)
strip buf =
    if ltb (length buf) 4
    then err truncated
    else if not (eq_bytes (take 4 buf) magic)
    then err (bad_magic magic (take 4 buf))
    else ok (drop 4 buf)

unfoldable pub wrap : List ℕ → List ℕ
wrap pa30 = magic ++ pa30
