-- ===== src/Version.antt =====
-- core/version.go.
use Prim.Native.String.{◌++◌ as join}
use yomo.Common.{String, Option, none, some, ◌==◌, nat_key, string_key, if◌then◌else◌}
use yomo.Errors.{Error, rejected}

abbrev pub version : String
version = "2024-01-03"

-- A `VersionNegotiateFunc`; `none` is a nil error.
abbrev pub VersionNegotiateFunc : Type 0
VersionNegotiateFunc = String → String → Option Error

abbrev pub version_mismatch : String → String → String
version_mismatch c_version s_version =
    join (join (join "version negotiation failed: client=" c_version) ", server=") s_version

-- DefaultVersionNegotiateFunc
unfoldable pub default_version_negotiate : VersionNegotiateFunc
default_version_negotiate c_version s_version =
    if c_version == s_version then none else some (rejected (version_mismatch c_version s_version))
