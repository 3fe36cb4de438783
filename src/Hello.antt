-- ===== src/Hello.antt =====
-- Hello messages of src/ofp/hello.cpp, as far as they carry versions: the version of the header, and
-- the bitmap of the version element if there is one.
pub mod Agreement
use libofp.Base.{
  ℕ, zero, suc, ◌^◌, ◌≤◌, Bool, true, false, ◌&&◌, Option, none, some, leb, ◌==◌, if◌then◌else◌,
}
use libofp.Versions.{
  version_4, version_last, all_versions, max_version, highest_version, include_in_hello_msg,
  negotiate_version,
}

pub record Hello : Type 0 where
  pub version : ℕ
  pub element : Option ℕ

-- `Hello::protocolVersions`: the bitmap, or the empty set.
unfoldable pub protocol_versions : Hello → ℕ
protocol_versions h = elim h.element [ none ↦ 0 | some bitmap ↦ bitmap ]

-- `ProtocolVersions{version}`
abbrev pub only : ℕ → ℕ
only version = if leb 1 version && leb version max_version then 2 ^ version else 0

-- The header's version and the bitmap that HelloBuilder::send settles on, from those it has.
unfoldable pub send_version : ℕ → ℕ → ℕ
send_version version bitmap =
    if version == 0 then if bitmap == 0 then version_last else highest_version bitmap else version

unfoldable pub send_bitmap : ℕ → ℕ → ℕ
send_bitmap version bitmap =
    if version == 0
    then if bitmap == 0 then all_versions else bitmap
    else if leb version_4 version && bitmap == 0
    then only version
    else bitmap

-- `HelloBuilder::send`: the message that is written.
unfoldable pub send : ℕ → ℕ → Hello
send version bitmap =
    let version' = send_version version bitmap in
    let bitmap' = send_bitmap version bitmap in
    record {
      version = version';
      element = if include_in_hello_msg bitmap' version' then some bitmap' else none;
    }

-- `HelloBuilder{versions}` and `send`
unfoldable pub hello_of : ℕ → Hello
hello_of bitmap = send (highest_version bitmap) bitmap

-- The version that a side with the versions `mine` settles on when it has the Hello message of a side
-- with the versions `theirs`; 0 if there is none.
unfoldable pub settle : ℕ → ℕ → ℕ
settle mine theirs =
    let hello = hello_of theirs in negotiate_version mine hello.version (protocol_versions hello)
