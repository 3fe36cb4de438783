-- ===== src/Versions.antt =====
-- ProtocolVersions of src/ofp/protocolversions.cpp: a set of OpenFlow versions as a UInt32 bitmap.
pub mod Highest
pub mod Negotiation
use libofp.Base.{
  ℕ, zero, suc, ◌+◌, ◌-◌, ◌^◌, ◌≤◌, ◌<◌, ◌≡◌, Bool, true, false, ◌&&◌, not, List, [], ◌∷◌, ◌++◌,
  ltb, leb, ◌==◌, if◌then◌else◌, bit_and, test_bit,
}

-- `MaxVersionSupported` of ProtocolVersions
abbrev pub max_version : ℕ
max_version = 30

abbrev pub version_1 : ℕ
version_1 = 1

abbrev pub version_3 : ℕ
version_3 = 3

abbrev pub version_4 : ℕ
version_4 = 4

-- `OFP_VERSION_LAST`
abbrev pub version_last : ℕ
version_last = 6

-- `OFP_VERSION_MAX_ALLOWED`
abbrev pub version_max_allowed : ℕ
version_max_allowed = 9

-- `VersionBitmapAll`: the bits 1 to 6.
abbrev pub all_versions : ℕ
all_versions = 0x7e

abbrev pub contains_version : ℕ → ℕ → Bool
contains_version bitmap version = test_bit bitmap version

abbrev pub intersection : ℕ → ℕ → ℕ
intersection = bit_and

-- The loop of `highestVersion`, from `i` down.
unfoldable pub highest_from : ℕ → ℕ → ℕ
highest_from bits zero = 0
highest_from bits (suc i) = if test_bit bits (suc i) then suc i else highest_from bits i

unfoldable pub highest_version : ℕ → ℕ
highest_version bitmap = highest_from bitmap max_version

-- `mine.negotiateVersion(msgVersion, msgVersions)`
unfoldable pub negotiate_version : ℕ → ℕ → ℕ → ℕ
negotiate_version mine msg_version msg_versions =
    if leb version_4 msg_version && not (msg_versions == 0)
    then highest_version (intersection mine msg_versions)
    else (let my_version = highest_version mine in
        if leb my_version msg_version
        then my_version
        else if contains_version mine msg_version
        then msg_version
        else 0)

-- `includeInHelloMsg`
unfoldable pub include_in_hello_msg : ℕ → ℕ → Bool
include_in_hello_msg bitmap version =
    if ltb version version_4
    then false
    else if bitmap == 2 ^ version
    then false
    else if bitmap == 2 ^ (version + 1) - 2
    then false
    else true

-- The loop of `versions`: the versions from `i` on, `n` of them.
unfoldable pub versions_from : ℕ → ℕ → ℕ → List ℕ
versions_from bitmap zero i = []
versions_from bitmap (suc n) i =
    (if test_bit bitmap i then i ∷ [] else []) ++ versions_from bitmap n (i + 1)

unfoldable pub versions : ℕ → List ℕ
versions bitmap = versions_from bitmap max_version 1
