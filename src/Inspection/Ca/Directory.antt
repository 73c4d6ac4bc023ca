-- ===== src/Inspection/Ca/Directory.antt =====
-- Directory and readPrivate: what may serve as a private or public directory, and as the state.
use Prim.Native.Nat.{bit_and}
use egress_gateway.Prelude.{
  ℕ, Bool, true, false, ◌||◌, not, Option, none, some, ltb, ◌==◌, if◌then◌else◌, Text,
}
use egress_gateway.GoLib.FilePath.{text_eq, is_abs, clean}
use egress_gateway.Inspection.Crypto.{Bytes}

pub data FileKind : Type 0 where
  directory regular symlink socket other : FileKind

pub record FileInfo : Type 0 where
  pub kind : FileKind
  pub perm : ℕ
  pub size : ℕ

pub data DirectoryError : Type 0 where
  not_clean mkdir_failed links_failed has_symlinks stat_failed unsafe_permissions : DirectoryError

unfoldable pub is_directory : FileKind → Bool
is_directory FileKind.directory = true
is_directory FileKind.regular = false
is_directory FileKind.symlink = false
is_directory FileKind.socket = false
is_directory FileKind.other = false

unfoldable pub is_regular : FileKind → Bool
is_regular FileKind.directory = false
is_regular FileKind.regular = true
is_regular FileKind.symlink = false
is_regular FileKind.socket = false
is_regular FileKind.other = false

-- Go's literals 0o022 and 0o077
unfoldable pub forbidden : ℕ → ℕ
forbidden mode = if mode == 0o700 then 0o077 else 0o022

unfoldable pub check_info : ℕ → Option FileInfo → Option DirectoryError
unfolding is_directory forbidden
check_info mode none = some stat_failed
check_info mode (some info) =
    if not (is_directory info.kind) || not (bit_and info.perm (forbidden mode) == 0)
    then some unsafe_permissions
    else none

unfoldable pub check_links : Text → ℕ → Option Text → Option FileInfo → Option DirectoryError
unfolding text_eq check_info
check_links path mode none info = some links_failed
check_links path mode (some actual) info =
    if not (text_eq actual path) then some has_symlinks else check_info mode info

-- Directory, on the answers of MkdirAll, EvalSymlinks and Stat: the error, if any.
unfoldable pub check_directory :
    Text → ℕ → Bool → Option Text → Option FileInfo → Option DirectoryError
unfolding is_abs text_eq clean check_links
check_directory path mode made actual info =
    if not (is_abs path) || not (text_eq (clean path) path)
    then some not_clean
    else if not made
    then some mkdir_failed
    else check_links path mode actual info

-- What MkdirAll, EvalSymlinks and Stat answer to one call of Directory.
pub record DirectoryCalls : Type 0 where
  pub made : Bool
  pub actual : Option Text
  pub info : Option FileInfo

unfoldable pub open_directory : Text → ℕ → DirectoryCalls → Option DirectoryError
unfolding check_directory
open_directory path mode calls = check_directory path mode calls.made calls.actual calls.info

-- readPrivate
pub data ReadState : Type 0 where
  missing : ReadState
  failed : ReadState
  bytes : Bytes → ReadState

pub data Opened : Type 0 where
  not_exist : Opened
  open_failed : Opened
  opened : Option FileInfo → Option Bytes → Opened

unfoldable pub read_checked : FileInfo → Option Bytes → ReadState
unfolding is_regular
read_checked info none = failed
read_checked info (some content) =
    if not (is_regular info.kind) || not (bit_and info.perm 0o077 == 0) || ltb 65_536 info.size
    then failed
    else bytes content

unfoldable pub read_private : Opened → ReadState
unfolding read_checked
read_private not_exist = missing
read_private open_failed = failed
read_private (opened none content) = failed
read_private (opened (some info) content) = read_checked info content
