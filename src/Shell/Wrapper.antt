-- ===== src/Shell/Wrapper.antt =====
-- The files of a shell call and the text that runs its command: buildShellWrapper and sanitizeFileName of
-- agent/tools_sandbox.go.
use turnhive.Base.{
  ℕ, zero, suc, ◌-◌, ◌||◌, [], ◌∷◌, ◌++◌, Bytes, codes, eqb, ◌==◌, bytes_eq, if◌then◌else◌,
}
use turnhive.Truncate.Utf8.{rune_width, step_width}
use turnhive.Files.{is_alphanumeric}
use turnhive.Workspace.{clean, slash}

abbrev pub safe_byte : ℕ → ℕ
safe_byte c = if is_alphanumeric c || eqb c b'-' || eqb c b'_' then c else b'_'

-- sanitizeFileName, with `skip` bytes of a rune still to pass.
unfoldable pub sanitize_from : ℕ → Bytes → Bytes
sanitize_from skip [] = []
sanitize_from (suc skip) (c ∷ s) = sanitize_from skip s
sanitize_from zero (c ∷ s) = safe_byte c ∷ sanitize_from (step_width (rune_width c s) - 1) s

unfoldable pub sanitize_file_name : Bytes → Bytes
sanitize_file_name name = sanitize_from 0 name

abbrev pub shell_logs_dir : Bytes
shell_logs_dir = codes ".agents/shell-logs"

unfoldable pub log_base : Bytes → Bytes
log_base call_id = shell_logs_dir ++ slash ∷ sanitize_file_name call_id

-- path.Join(cwd, rel), where a directory is known.
abbrev pub anchor : Bytes → Bytes → Bytes
anchor dir rel = if dir == [] then rel else clean (dir ++ slash ∷ rel)

pub record ShellFiles : Type 0 where
  pub stdout : Bytes
  pub stderr : Bytes
  pub exit : Bytes

unfoldable pub files_of : Bytes → Bytes → ShellFiles
files_of dir call_id = record {
  stdout = anchor dir (log_base call_id ++ codes ".stdout");
  stderr = anchor dir (log_base call_id ++ codes ".stderr");
  exit = anchor dir (log_base call_id ++ codes ".exit");
}

abbrev pub tick : ℕ
tick = 39

-- '\'' in place of a quote
abbrev pub hidden : ℕ → Bytes
hidden c = if eqb c tick then tick ∷ b'\\' ∷ tick ∷ tick ∷ [] else c ∷ []

unfoldable pub hide_all : Bytes → Bytes
hide_all [] = []
hide_all (c ∷ s) = hidden c ++ hide_all s

-- The function q of buildShellWrapper.
unfoldable pub quote : Bytes → Bytes
quote p = tick ∷ (hide_all p ++ tick ∷ [])

unfoldable pub build_shell_wrapper : Bytes → Bytes → Bytes → Bytes
build_shell_wrapper command log_dir base =
    codes "mkdir -p "
    ++ (quote log_dir
        ++ (codes "\n{\n"
            ++ (command
                ++ (codes "\ncode=$?\necho \"$code\" > "
                    ++ (quote (base ++ codes ".exit")
                        ++ (codes "\n} > "
                            ++ (quote (base ++ codes ".stdout")
                                ++ (codes " 2> " ++ quote (base ++ codes ".stderr")))))))))
