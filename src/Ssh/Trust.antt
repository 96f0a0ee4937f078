-- ===== src/Ssh/Trust.antt =====
-- internal/ssh/knownhosts.go: `Trust`, from the key that was fetched to the file of known hosts.
pub mod Enrolled
pub mod Examples
use mksrv.Common.{
  ◌||◌, ◌+◌, Bool, true, false, List, [], ◌∷◌, ◌++◌, arith, if◌then◌else◌, Text, txt, text_eq,
  has_prefix, contains_text, trim_space, split,
}

-- What the lines of the file say of a host.
pub data Verdict : Type 0 where
  unknown : Verdict
  trusted : Verdict
  conflict : Verdict

-- `existingLine == "" || strings.HasPrefix(existingLine, "#")`, of a trimmed line.
pub is_comment : Text → Bool
is_comment line = text_eq line [] || has_prefix line (txt "#")

-- The loop over the lines: `pattern` is the host's normalised address, `line` the line for its key.
pub scan : Text → Text → List Text → Verdict
scan pattern line [] = unknown
scan pattern line (l ∷ lines) =
    let rest = scan pattern line lines in
    if is_comment (trim_space l)
    then rest
    else if contains_text (trim_space l) pattern
    then (if text_eq (trim_space l) line then trusted else conflict)
    else rest

-- What `Trust` returns: whether a line was added, with the file that it leaves, or an error that
-- leaves the file as it is.
pub data Enrolment : Type 0 where
  enrolled : Bool → Text → Enrolment
  rejected : Enrolment

pub trust : Text → Text → Text → Enrolment
trust pattern line existing = elim (scan pattern line (split existing 10)) [
  | trusted ↦ enrolled false existing
  | conflict ↦ rejected
  | unknown ↦ enrolled true (existing ++ (line ++ txt "\n"))
]
