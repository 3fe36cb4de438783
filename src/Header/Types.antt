-- ===== src/Header/Types.antt =====
-- The translation of message types between protocol versions loses nothing.
use libofp.Base.{ℕ, ◌<◌, ◌≡◌, ◌≢◌, arith}
use libofp.Versions.{version_4}
use libofp.Header.{
  ofpt_unsupported, max_type_by_version, translate_type_to_version, translate_type_from_version,
  translate_type,
}

-- A type of version 1.0, 1.1 or 1.2 that can be translated to version 1.3 comes back as it was when it
-- is translated to its version again.
pub translate_type-from_to :
    (version type : ℕ)
    → 0 < version
    → version < version_4
    → translate_type version type version_4 ≢ ofpt_unsupported
    → translate_type version_4 (translate_type version type version_4) version ≡ type
unfolding translate_type translate_type_to_version translate_type_from_version max_type_by_version
translate_type-from_to version type p h k = ground arith

-- A type of version 1.3 that can be translated to an earlier version comes back as it was.
pub translate_type-to_from :
    (version type : ℕ)
    → 0 < version
    → version < version_4
    → translate_type version_4 type version ≢ ofpt_unsupported
    → translate_type version (translate_type version_4 type version) version_4 ≡ type
unfolding translate_type translate_type_to_version translate_type_from_version max_type_by_version
translate_type-to_from version type p h k = ground arith
