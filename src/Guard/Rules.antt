-- ===== src/Guard/Rules.antt =====
-- security/command_guard.py: the tables of patterns, and the tests of a text against them.
use novamind.Prelude.{
  ℕ, String, Bool, ◌&&◌, ◌||◌, Option, none, some, List, [], ◌∷◌, any, contains, if◌then◌else◌,
}
use novamind.Prelude.Dict.{Dict, lookup}
use novamind.Prelude.Texts.{is_in}
use text.Mathlib.Text.{starts_with}

pub data Risk : Type 0 where
  safe low medium high critical : Risk

abbrev pub value : Risk → ℕ
value safe = 0
value low = 1
value medium = 2
value high = 3
value critical = 4

abbrev pub risk_name : Risk → String
risk_name safe = "safe"
risk_name low = "low"
risk_name medium = "medium"
risk_name high = "high"
risk_name critical = "critical"

abbrev pub blacklist_exact : List String
blacklist_exact =
    "rm -rf /" ∷ "format c:" ∷ ":(){ :|:& };:" ∷ "mkfs" ∷ "dd if=/dev/zero of=/dev/sda" ∷ []

abbrev pub blacklist_contains : List String
blacklist_contains =
    "rm -rf /" ∷ "dd if=" ∷ "> /dev/sda" ∷ "> /dev/hd" ∷ "chmod 777 /" ∷ "shutil.rmtree('/')"
    ∷ "os.remove('/etc')" ∷ "format c:" ∷ "format /dev/" ∷ "rd /s /q c:\\" ∷ "reg delete"
    ∷ "reg add" ∷ "net user /delete" ∷ "usermod.*root" ∷ "sc delete" ∷ "sc config" ∷ "net stop"
    ∷ "net delete" ∷ "netsh advfirewall set" ∷ "icacls.*systemroot" ∷ "takeown /f.*windows"
    ∷ "bcdedit" ∷ "diskpart" ∷ ":(){ :|:&" ∷ []

abbrev pub protected_paths : List String
protected_paths =
    "c:\\windows" ∷ "c:\\program files" ∷ "c:\\program files (x86)" ∷ "c:\\programdata" ∷ "/usr/bin"
    ∷ "/usr/sbin" ∷ "/bin" ∷ "/sbin" ∷ "/etc" ∷ "/sys" ∷ "/dev" ∷ "/proc" ∷ "/boot" ∷ "/lib"
    ∷ "/lib64" ∷ []

abbrev pub modification_verbs : List String
modification_verbs = "del" ∷ "rm" ∷ "remove" ∷ "format" ∷ "chmod" ∷ "write" ∷ "modify" ∷ []

unfoldable pub risk_patterns : Risk → List String
risk_patterns critical = "delete system" ∷ "format" ∷ "registry delete" ∷ "system32" ∷ []
risk_patterns high =
    "install" ∷ "uninstall" ∷ "remove program" ∷ "change permission" ∷ "admin privilege"
    ∷ "disable firewall" ∷ "kill process" ∷ []
risk_patterns medium = "download" ∷ "execute" ∷ "run script" ∷ "copy system" ∷ "move system" ∷ []
risk_patterns low = "create" ∷ "rename" ∷ "copy" ∷ "move" ∷ "list" ∷ "view" ∷ "read" ∷ []
risk_patterns safe = []

abbrev pub risk_order : List Risk
risk_order = critical ∷ high ∷ medium ∷ low ∷ []

abbrev pub confirmation_patterns : List String
confirmation_patterns =
    "\\bdel\\s+/[fqs]" ∷ "\\brm\\s+-[rf]" ∷ "\\bRemove-Item\\b" ∷ "\\bcopy\\s+/y\\b"
    ∷ "\\bmove\\s+/y\\b" ∷ "\\bchoco\\s+install\\b" ∷ "\\bwinget\\s+install\\b"
    ∷ "\\bpip\\s+install\\b" ∷ "\\bnpm\\s+install\\s+-g\\b" ∷ "\\bchmod\\b" ∷ "\\bicacls\\b"
    ∷ "\\btakeown\\b" ∷ "\\bsc\\s+(start|stop|pause)\\b" ∷ "\\bnet\\s+(start|stop)\\b"
    ∷ "\\bcurl\\s+.*-o\\b" ∷ "\\bwget\\b" ∷ "\\bInvoke-WebRequest\\b" ∷ []

-- any(p in text for p in patterns)
abbrev pub any_in : List String → String → Bool
any_in patterns text = any (λ p. is_in p text) patterns

unfoldable pub is_blacklisted : String → Bool
is_blacklisted cl = contains blacklist_exact cl || any_in blacklist_contains cl

-- _accesses_protected_path_with_modification
unfoldable pub modifies_protected_path : String → Bool
modifies_protected_path cl = any_in protected_paths cl && any_in modification_verbs cl

unfoldable pub first_match : List Risk → String → Risk
first_match [] cl = safe
first_match (r ∷ rs) cl =
    let rest = first_match rs cl in if any_in (risk_patterns r) cl then r else rest

abbrev pub op_risk : Dict Risk
op_risk =
    ("delete", high)
    ∷ ("remove", high)
    ∷ ("wipe", high)
    ∷ ("write", medium)
    ∷ ("modify", medium)
    ∷ ("append", medium)
    ∷ ("read", low)
    ∷ ("list", low)
    ∷ ("copy", low)
    ∷ []

abbrev pub or_low : Option Risk → Risk
or_low none = low
or_low (some r) = r

-- assess_file_risk on the path in lower case.
unfoldable pub file_risk : String → String → Risk
file_risk path_lower operation =
    if any (λ p. starts_with path_lower p) protected_paths
    then critical
    else if any_in ("windows" ∷ "program files" ∷ "system32" ∷ []) path_lower
    then high
    else or_low (lookup operation op_risk)
