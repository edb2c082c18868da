-- ===== src/Config/Profile/Accepts.antt =====
-- parse_rig_profile as a whole: what it accepts, and how it fails before the first line.
use rigos.Base.{
  ℕ, ◌≤◌, ◌+◌, String, ◌≡◌, some, List, [], ok, >>=-eq-ok, fail_if-eq-ok, ok_or-eq-ok, ltb, length,
  arith,
}
use rigos.Base.Text.Search.{lines}
use rigos.Base.Utf8.{from_utf8}
use rigos.Config.Profile.{max_config_bytes, parse_text, parse_rig_profile}
use rigos.Config.Profile.Lines.{Entry, read_lines}
use rigos.Config.Profile.Fields.{RigProfile}
use rigos.Config.Profile.Valid.{IsValidProfile, Describes, profile_of_values-Accepted}
use rigos.Config.Profile.Origin.{Give, read_lines-Give}
use rigos.Config.Profile.Keys.{IsRead, read_lines-IsRead}

-- How a file of bytes came to give a profile.
pub record Parsed (bytes : List ℕ) (p : RigProfile) : Type 0 where
  pub small : length bytes ≤ max_config_bytes
  pub text : String
  pub decoded : from_utf8 bytes ≡ some text
  pub values : List Entry
  pub given : Give 1 (lines text) [] values
  pub keys : IsRead (1 + length (lines text)) values
  pub described : Describes values p
  pub valid : IsValidProfile p

-- An accepted file is at most 64 KiB of UTF-8. Each of its lines that is neither blank nor a comment
-- gives an entry, and no other does: under the number of the line, the key and the value about its
-- first `=`, where the line has no shell expansion, the key is of uppercase letters and underscores
-- and the value has no white space about it. The keys are distinct and supported; the values under
-- them are version 1 and the fields of the profile; and the profile is valid: a host name and a
-- zone name, and a reference that fits the source.
pub parse_rig_profile-Parsed :
    (bytes : List ℕ) (p : RigProfile) → parse_rig_profile bytes ≡ ok p → Parsed bytes p
unfolding parse_rig_profile parse_text
parse_rig_profile-Parsed bytes p h =
    let (large, h1) = fail_if-eq-ok (ltb max_config_bytes (length bytes)) _ _ h in
    let (text, e2, h2) = ok_or-eq-ok (from_utf8 bytes) _ _ h1 in
    let (values, e3, h3) = >>=-eq-ok (read_lines 1 (lines text) []) _ h2 in
    let a = profile_of_values-Accepted values p h3 in
    record {
      small = ground arith;
      text = text;
      decoded = e2;
      values = values;
      given = read_lines-Give 1 (lines text) [] values e3;
      keys = read_lines-IsRead 1 (lines text) [] values e3 (record { entries = tt; distinct = tt });
      described = a.described;
      valid = a.valid;
    }
