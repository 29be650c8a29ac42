-- ===== src/Proto/Core/Version.antt =====
-- A version that is packed can be taken apart again.
use faith.Common.{ℕ, ◌+◌, ◌*◌, ◌/◌, ◌^◌, ◌<◌, ◌≡◌, ◌∙◌, bit_or, bit_and, refl, arith}
use faith.Common.Bits.{bit_or-shift, bit_and-31, bit_and-63}
use faith.Proto.Core.{version_pack, version_major, version_minor, version_patch, proto_version}

-- FAITH_PROTO_VERSION has the value that the decoder compares with.
pub version_pack-proto_version : version_pack 0 0 1 ≡ proto_version
unfolding version_pack
version_pack-proto_version = refl

abbrev packed : ℕ → ℕ → ℕ → ℕ
packed major minor patch = (major * 32 + minor) * 64 + patch

version_pack-packed :
    (major minor patch : ℕ)
    → major < 32
    → minor < 32
    → patch < 64
    → version_pack major minor patch ≡ packed major minor patch
unfolding version_pack
version_pack-packed major minor patch h k l =
    let low₁ : bit_and major 0x1f ≡ major = bit_and-31 major ∙ omega arith in
    let low₂ : bit_and minor 0x1f ≡ minor = bit_and-31 minor ∙ omega arith in
    let low₃ : bit_and patch 0x3f ≡ patch = bit_and-63 patch ∙ omega arith in
    let upper : bit_or (major * 2 ^ 11) (minor * 2 ^ 6) ≡ (major * 32 + minor) * 2 ^ 6 =
      bit_or-shift 11 major (minor * 2 ^ 6) (omega arith) ∙ omega arith in
    rw (low₁, low₂, low₃, upper, bit_or-shift 6 (major * 32 + minor) patch l) (omega arith)

-- A major and a minor number below 32 and a patch number below 64 are read back from the packed
-- version, which fits 16 bits.
pub version_pack_fields :
    (major minor patch : ℕ)
    → major < 32
    → minor < 32
    → patch < 64
    → (version_major (version_pack major minor patch) ≡ major)
      × (version_minor (version_pack major minor patch) ≡ minor)
      × (version_patch (version_pack major minor patch) ≡ patch)
unfolding version_major version_minor version_patch
version_pack_fields major minor patch h k l =
    let v = packed major minor patch in
    rw (version_pack-packed major minor patch h k l) (
      omega (arith, bit_and-31 (v / 2 ^ 11)),
      omega (arith, bit_and-31 (v / 2 ^ 6)),
      omega (arith, bit_and-63 v),
    )
