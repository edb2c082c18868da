-- ===== src/Config/Names/Zone.antt =====
-- valid_timezone_name against an independent description of zone names.
use Prim.Native.String.{len}
use rigos.Base.{
  ℕ, ◌≤◌, String, ◌≡◌, sym, ◌∙◌, ◌↔◌, ◌⊎◌, Bool, true, not, ◌&&◌, arith, and-eq-true, and_true,
  leb→le, All, all_iff,
}
use rigos.Base.Text.{all_bytes, is_empty, AllChars}
use rigos.Base.Text.Laws.{OnlyAscii, all_bytes-eq-all_chars, all_chars→AllChars, AllChars→all_chars}
use rigos.Base.Text.Search.{split}
use rigos.Config.Names.{zone_byte, valid_timezone_name}
use rigos.Config.Names.Slug.{IsAlphanumeric}
use rigos.Config.Names.Host.{IsNonempty, is_empty_iff}

abbrev pub IsZoneChar : ℕ → Type 0
IsZoneChar c = IsAlphanumeric c ⊎ (c ≡ b'_') ⊎ (c ≡ b'-') ⊎ (c ≡ b'+')

-- Nonempty parts between slashes, of letters, digits and `_-+`; so no part is a dot or two.
pub record IsPart (p : String) : Type 0 where
  pub nonempty : IsNonempty p
  pub chars : AllChars IsZoneChar p

pub record IsZone (s : String) : Type 0 where
  pub bounded : len s ≤ 128
  pub parts : All IsPart (split b'/' s)

zone_byte_iff : (c : ℕ) → (zone_byte c ≡ true) ↔ IsZoneChar c
zone_byte_iff c = ground arith

zone_byte-OnlyAscii : OnlyAscii zone_byte
zone_byte-OnlyAscii b h = ground arith

part : String → Bool
part p = not (is_empty p) && all_bytes zone_byte p

part_iff : (p : String) → (part p ≡ true) ↔ IsPart p
unfolding part
part_iff p = (
  λ h.
      let (a, c) = and-eq-true _ _ h in
      record {
        nonempty = (is_empty_iff p).0 a;
        chars =
            all_chars→AllChars zone_byte IsZoneChar zone_byte_iff p
              (sym (all_bytes-eq-all_chars zone_byte zone_byte-OnlyAscii p) ∙ c);
      },
  λ h. and_true ((is_empty_iff p).1 h.nonempty) (
      all_bytes-eq-all_chars zone_byte zone_byte-OnlyAscii p
      ∙ AllChars→all_chars zone_byte IsZoneChar zone_byte_iff p h.chars),
)

-- What passes `valid_timezone_name` is a zone name.
pub valid_timezone_name-IsZone : (s : String) → valid_timezone_name s ≡ true → IsZone s
unfolding valid_timezone_name part
valid_timezone_name-IsZone s h =
    let (abcd, e) = and-eq-true _ _ h in
    let (abc, d) = and-eq-true _ _ abcd in
    let (ab, c) = and-eq-true _ _ abc in
    let (a, b) = and-eq-true _ _ ab in
    record { bounded = leb→le _ _ b; parts = (all_iff part IsPart part_iff (split b'/' s)).0 e }
