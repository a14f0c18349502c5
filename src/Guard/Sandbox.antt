-- ===== src/Guard/Sandbox.antt =====
-- security/command_guard.py, sandbox_python. What ast.parse gives is an argument: the text of a syntax
-- error, or the nodes in the order of ast.walk.
use novamind.Prelude.{
  String, Bool, true, false, Option, none, some, List, [], ◌∷◌, ◌++◌, map, contains, keep_if, take,
}
use novamind.Prelude.Texts.{concat}

pub data Node : Type 0 where
  imported : List String → Node
  imported_from : Option String → Node
  called_name called_attribute : String → Node
  other_node : Node

pub data Parsed : Type 0 where
  syntax_error : String → Parsed
  tree : List Node → Parsed

abbrev pub dangerous_imports : List String
dangerous_imports = "os" ∷ "subprocess" ∷ "sys" ∷ "shutil" ∷ "socket" ∷ "urllib" ∷ "requests" ∷ []

abbrev pub dangerous_calls : List String
dangerous_calls = "eval" ∷ "exec" ∷ "compile" ∷ "__import__" ∷ "open" ∷ "input" ∷ []

abbrev pub dangerous_methods : List String
dangerous_methods = "system" ∷ "popen" ∷ "call" ∷ "run" ∷ "remove" ∷ "rmdir" ∷ "unlink" ∷ []

abbrev pub named : String → List String → List String → List String
named prefix table names = map (concat prefix) (keep_if (contains table) names)

unfoldable pub dangers_of : Node → List String
dangers_of (imported names) = named "Import: " dangerous_imports names
dangers_of (imported_from none) = []
dangers_of (imported_from (some m)) = named "From-import: " dangerous_imports (m ∷ [])
dangers_of (called_name f) = named "Call: " dangerous_calls (f ∷ [])
dangers_of (called_attribute a) = named "Method: " dangerous_methods (a ∷ [])
dangers_of other_node = []

unfoldable pub dangers : List Node → List String
dangers [] = []
dangers (n ∷ ns) = dangers_of n ++ dangers ns

pub data Finding : Type 0 where
  unparsed : String → Finding
  dangerous_operations : List String → Finding
  sanitized_for_execution : Finding

pub record Sandboxed : Type 0 where
  pub is_safe : Bool
  pub code : String
  pub finding : Finding

abbrev pub judged : List String → String → Sandboxed
judged [] code = record {
  is_safe = true;
  code = concat "# Sandboxed execution\n" code;
  finding = sanitized_for_execution;
}
judged (d ∷ ds) code = record {
  is_safe = false;
  code = code;
  finding = dangerous_operations (take 5 (d ∷ ds));
}

unfoldable pub sandbox_python : (String → Parsed) → String → Sandboxed
sandbox_python parse code = sandboxed (parse code)
  where
    sandboxed : Parsed → Sandboxed
    sandboxed (syntax_error e) = record { is_safe = false; code = code; finding = unparsed e }
    sandboxed (tree nodes) = judged (dangers nodes) code
