-- ===== src/Cli.antt =====
-- src/cli.c and include/cli.h: the arguments of the program that runs a script.
pub mod Returns
use threaded_db_api_server.Prelude.{
  Bool, true, false, ◌||◌, Option, none, some, List, [], ◌∷◌, if◌then◌else◌,
}
use threaded_db_api_server.Prelude.Bytes.{Bytes, codes, str_eq}
use threaded_db_api_server.Errors.{invalid_args, Result, ok, err}

pub record CliOptions : Type 0 where
  pub db_dir : Option Bytes
  pub sql_file : Option Bytes
  pub help_requested : Bool

abbrev pub init_options : CliOptions
init_options = record { db_dir = none; sql_file = none; help_requested = false }

-- An option, by either of its names.
unfoldable pub is_option : Bytes → Bytes → Bytes → Bool
is_option short long arg = str_eq arg short || str_eq arg long

-- What an argument asks for.
pub data Flag : Type 0 where
  help db file other : Flag

pub flag_of : Bytes → Flag
unfolding is_option
flag_of arg =
    if is_option (codes "-h") (codes "--help") arg
    then help
    else if is_option (codes "-d") (codes "--db") arg
    then db
    else if is_option (codes "-f") (codes "--file") arg
    then file
    else other

-- What is asked behind the loop.
pub check_options : CliOptions → Result CliOptions
check_options options = elim options.help_requested [
  | true ↦ ok options
  | false ↦ both options.db_dir options.sql_file
]
  where
    both : Option Bytes → Option Bytes → Result CliOptions
    both (some dir) (some path) = ok options
    both _ _ = err invalid_args

-- `parse_cli_args`, with the options read so far and the arguments from `argv[i]` on.
unfoldable pub parse_from : CliOptions → List Bytes → Result CliOptions
unfolding flag_of check_options
parse_from options [] = check_options options
parse_from options (arg ∷ []) = elim (flag_of arg) [
  | help ↦ check_options (record options { help_requested = true })
  | _ ↦ err invalid_args
]
parse_from options (arg ∷ value ∷ args) = elim (flag_of arg) [
  | help ↦ parse_from (record options { help_requested = true }) (value ∷ args)
  | db ↦ parse_from (record options { db_dir = some value }) args
  | file ↦ parse_from (record options { sql_file = some value }) args
  | other ↦ err invalid_args
]

-- The arguments are those behind the name of the program.
unfoldable pub parse_cli_args : List Bytes → Result CliOptions
unfolding parse_from
parse_cli_args = parse_from init_options
