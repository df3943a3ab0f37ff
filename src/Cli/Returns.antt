-- ===== src/Cli/Returns.antt =====
-- src/cli.c: the arguments are read, or refused.
use threaded_db_api_server.Prelude.{Bool, true, false, Option, none, some, List, [], ◌∷◌}
use threaded_db_api_server.Prelude.Bytes.{Bytes}
use threaded_db_api_server.Errors.{invalid_args, err}
use threaded_db_api_server.Errors.Outcome.{Returns, refuses, delivers}
use threaded_db_api_server.Cli.{
  CliOptions, init_options, Flag, help, db, file, other, flag_of, check_options, parse_from,
  parse_cli_args,
}

check_options-Returns : (options : CliOptions) → Returns (check_options options)
unfolding check_options
check_options-Returns options = go options.help_requested options.db_dir options.sql_file
  where
    go :
        (b : Bool) (dir path : Option Bytes)
        → Returns (check_options (record { db_dir = dir; sql_file = path; help_requested = b }))
    go true dir path = delivers tt
    go false none path = refuses tt
    go false (some dir) none = refuses tt
    go false (some dir) (some path) = delivers tt

parse_from-Returns : (options : CliOptions) (args : List Bytes) → Returns (parse_from options args)
unfolding parse_from
parse_from-Returns options [] = check_options-Returns options
parse_from-Returns options (arg ∷ []) =
    elim (flag_of arg)
      as (λ f. Returns (elim f [
        | help ↦ check_options (record options { help_requested = true })
        | _ ↦ err invalid_args
      ])) [
        | help ↦ check_options-Returns (record options { help_requested = true })
        | _ ↦ refuses tt
      ]
parse_from-Returns options (arg ∷ value ∷ args) =
    go (flag_of arg) (parse_from-Returns (record options { help_requested = true }) (value ∷ args))
      (parse_from-Returns (record options { db_dir = some value }) args)
      (parse_from-Returns (record options { sql_file = some value }) args)
  where
    go :
        (f : Flag)
        → Returns (parse_from (record options { help_requested = true }) (value ∷ args))
        → Returns (parse_from (record options { db_dir = some value }) args)
        → Returns (parse_from (record options { sql_file = some value }) args)
        → Returns (elim f [
          | help ↦ parse_from (record options { help_requested = true }) (value ∷ args)
          | db ↦ parse_from (record options { db_dir = some value }) args
          | file ↦ parse_from (record options { sql_file = some value }) args
          | other ↦ err invalid_args
        ])
    go help x y z = x
    go db x y z = y
    go file x y z = z
    go other x y z = refuses tt

pub parse_cli_args-Returns : (args : List Bytes) → Returns (parse_cli_args args)
unfolding parse_cli_args
parse_cli_args-Returns = parse_from-Returns init_options
