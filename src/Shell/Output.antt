-- ===== src/Shell/Output.antt =====
-- The reply to a shell call that ended: the second part of foregroundResult of agent/tools_sandbox.go.
use turnhive.Base.{
  ℕ, ◌*◌, Bool, true, false, ◌&&◌, ◌||◌, List, [], ◌∷◌, ◌++◌, Bytes, codes, eqb, ltb, length, take,
  ◌==◌, bytes_eq, if◌then◌else◌,
}
use turnhive.Base.Int.{ℤ, is_negative, int_text}
use turnhive.Base.Split.{join}
use turnhive.Truncate.{newline}
use turnhive.Shell.Wrapper.{ShellFiles}

abbrev pub max_shell_read_back_bytes : ℕ
max_shell_read_back_bytes = 4 * 1024 * 1024

-- getFileCapped, of a file that is there.
abbrev pub capped : Bytes → Bytes × Bool
capped text =
    if ltb max_shell_read_back_bytes (length text)
    then (take max_shell_read_back_bytes text, true)
    else (text, false)

abbrev pub drop_newline : ℕ → Bytes → Bytes
drop_newline c [] = if eqb c newline then [] else c ∷ []
drop_newline c (d ∷ rest) = c ∷ d ∷ rest

-- strings.TrimRight(s, "\n")
unfoldable pub trim_newlines : Bytes → Bytes
trim_newlines [] = []
trim_newlines (c ∷ s) = drop_newline c (trim_newlines s)

abbrev pub part_if : Bool → Bytes → List Bytes
part_if true part = part ∷ []
part_if false part = []

abbrev pub cut_note : ShellFiles → Bytes
cut_note f =
    codes
      "Output exceeded the 4MB read-back limit and was cut off. The full output is in the sandbox at "
    ++ (f.stdout ++ (codes " and " ++ (f.stderr ++ codes "; inspect it with tail/grep.")))

unfoldable pub exit_line : ℤ → Bytes
exit_line n =
    if is_negative n
    then codes "(exit code: unknown)"
    else codes "(exit code: " ++ (int_text n ++ codes ")")

abbrev pub some_text : Bytes → Bool
some_text s = if s == [] then false else true

-- The parts in front of the exit code.
abbrev pub output_parts : ShellFiles → Bytes → Bytes → Bool → List Bytes
output_parts f out err cut =
    part_if (some_text out) out
    ++ (part_if (some_text err) (codes "[stderr]\n" ++ err)
        ++ (part_if (out == [] && err == []) (codes "(no output)") ++ part_if cut (cut_note f)))

unfoldable pub format_output : ShellFiles → ℤ → Bytes × Bool → Bytes × Bool → Bytes
format_output f code (out, out_cut) (err, err_cut) = join newline (
    output_parts f (trim_newlines out) (trim_newlines err) (out_cut || err_cut)
    ++ exit_line code ∷ [])
