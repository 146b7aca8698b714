-- ===== src/Pa19/Size.antt =====
-- What a PA19 patch that is decoded or applied promises.
use msdelta.Base.{
  ℕ, ◌≡◌, refl, sym, ◌∙◌, ap, Bool, true, false, not, List, length, drop, take, ltb, ◌==◌, ==→eq,
  ◌||◌, if◌then◌else◌,
}
use msdelta.Base.Bytes.{eq_bytes→≡}
use msdelta.Errors.{malformed}
use msdelta.Pa19.E8.{e8_transform_decode}
use msdelta.Errors.{ok, err, >>=-ok, unless-ok, when-ok}
use msdelta.Pa19.Crc.{crc32}
use msdelta.Pa19.{
  PatchHeader, Lzxd, has_flag, magic, decode, header_size, checked, apply, is_pa19, parse_header,
  decompress_delta,
}

checked-crc :
    (hdr : PatchHeader) (plain new_file : List ℕ)
    → checked hdr plain ≡ ok new_file
    → crc32 new_file ≡ hdr.new_file_crc
unfolding checked
checked-crc hdr plain new_file e =
    of (if has_flag hdr.flags 2 then e8_transform_decode plain else plain) e
  where
    of :
        (file : List ℕ)
        → (if crc32 file == hdr.new_file_crc then ok file else err (malformed "PA19: CRC mismatch"))
          ≡ ok new_file
        → crc32 new_file ≡ hdr.new_file_crc
    of file h =
        let (same, out) = when-ok (crc32 file == hdr.new_file_crc) _ h in
        let at_file : file ≡ new_file = cc in ap crc32 (sym at_file) ∙ ==→eq same

flip : (c : Bool) → not c ≡ false → c ≡ true
flip true e = refl
flip false e = cc

magic_bytes : (patch : List ℕ) → is_pa19 patch ≡ true → take 4 patch ≡ magic
unfolding is_pa19
magic_bytes patch e = eq_bytes→≡ _ _ (inner (ltb (length patch) 4) _ e)
  where
    inner : (a b : Bool) → not (a || not b) ≡ true → b ≡ true
    inner true b h = cc
    inner false true h = refl
    inner false false h = cc

-- A patch that is applied has the magic, fits the old file, and makes a file of the CRC that it
-- states, whatever the decoder does.
pub apply_sound :
    (lzxd : Lzxd) (old_file patch new_file : List ℕ)
    → apply lzxd old_file patch ≡ ok new_file
    → (hdr : PatchHeader) × (parse_header patch ≡ ok hdr)
      × (take 4 patch ≡ magic)
      × (length old_file ≡ hdr.old_file_size)
      × (crc32 new_file ≡ hdr.new_file_crc)
unfolding apply parse_header
apply_sound lzxd old_file patch new_file e =
    let (known, e1) = unless-ok (not (is_pa19 patch)) _ e in
    let (hdr, at_hdr, e2) = >>=-ok (decode patch) _ e1 in
    let (fits, e3) = unless-ok (not (length old_file == hdr.old_file_size)) _ e2 in
    let (offset, _, e4) = >>=-ok (header_size patch) _ e3 in
    let (plain, _, out) =
      >>=-ok (decompress_delta lzxd (drop offset patch) hdr.new_file_size hdr.lzx_window_size) _
        e4 in
    (
      hdr,
      rw known at_hdr,
      magic_bytes patch (flip _ known),
      ==→eq (flip _ fits),
      checked-crc hdr plain new_file out,
    )
