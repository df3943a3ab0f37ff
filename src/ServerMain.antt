-- ===== src/ServerMain.antt =====
-- src/server_main.c: the arguments of the server program, and its start.
--
-- The arguments are those behind the name of the program. The usage and the messages are left out.
pub mod Accepts
use threaded_db_api_server.Prelude.{
  ℕ, Bool, true, false, not, ◌||◌, ◌==◌, ltb, Option, none, some, List, [], ◌∷◌, if◌then◌else◌,
}
use mathlib.Core.Option
use threaded_db_api_server.Prelude.Bytes.{Bytes, codes}
use threaded_db_api_server.Disk.{Disk}
use threaded_db_api_server.Cli.{is_option}
use threaded_db_api_server.Http.Head.{Strtoull}
use threaded_db_api_server.Server.Run.{ServerConfig, Calls, Server, server_init}

-- `strtol(text, &endptr, 10)`: the value, if it is not below 0, and the text from `endptr` on
abbrev pub Strtol : Type 0
Strtol = Bytes → Option ℕ × Bytes

-- A value, read to the end of the text, from `min_value`, which is not below 0, to `max_value`.
pub checked_value : ℕ → ℕ → Option ℕ × Bytes → Option ℕ
checked_value min_value max_value (some parsed, []) =
    if ltb parsed min_value || ltb max_value parsed then none else some parsed
checked_value min_value max_value _ = none

unfoldable pub parse_int_arg : Strtol → Bytes → ℕ → ℕ → Option ℕ
unfolding checked_value
parse_int_arg strtol [] min_value max_value = none
parse_int_arg strtol (c ∷ cs) min_value max_value =
    checked_value min_value max_value (strtol (c ∷ cs))

pub not_zero : ℕ × Bytes → Option ℕ
not_zero (parsed, []) = if parsed == 0 then none else some parsed
not_zero (parsed, c ∷ cs) = none

unfoldable pub parse_size_arg : Strtoull → Bytes → Option ℕ
unfolding not_zero
parse_size_arg strtoull [] = none
parse_size_arg strtoull (c ∷ cs) = not_zero (strtoull (c ∷ cs))

-- `*out_config`, whose `db_dir` may still be NULL.
pub record ServerArgs : Type 0 where
  pub db_dir : Option Bytes
  pub port : ℕ
  pub thread_count : ℕ
  pub queue_capacity : ℕ

abbrev pub defaults : ServerArgs
defaults = record { db_dir = none; port = 8080; thread_count = 4; queue_capacity = 64 }

-- What the arguments ask for: `*out_help`, or a server.
pub data Asked : Type 0 where
  asks_help : Asked
  serves : ServerConfig → Asked

pub check_dir : ServerArgs → Option Asked
check_dir args = elim args.db_dir [
  | none ↦ none
  | some dir ↦ some (
      serves (record {
        db_dir = dir;
        port = args.port;
        thread_count = args.thread_count;
        queue_capacity = args.queue_capacity;
      }))
]

pub data Flag : Type 0 where
  help db port threads queue_size other : Flag

pub flag_of : Bytes → Flag
unfolding is_option
flag_of arg =
    if is_option (codes "-h") (codes "--help") arg
    then help
    else if is_option (codes "-d") (codes "--db") arg
    then db
    else if is_option (codes "-p") (codes "--port") arg
    then port
    else if is_option (codes "-t") (codes "--threads") arg
    then threads
    else if is_option (codes "-q") (codes "--queue-size") arg
    then queue_size
    else other

-- One option with its value: the settings with it.
pub set_option : Strtol → Strtoull → ServerArgs → Flag → Bytes → Option ServerArgs
set_option strtol strtoull args db value = some (record args { db_dir = some value })
set_option strtol strtoull args port value =
    Option.map (λ n. record args { port = n }) (parse_int_arg strtol value 1 65535)
set_option strtol strtoull args threads value =
    Option.map (λ n. record args { thread_count = n }) (parse_size_arg strtoull value)
set_option strtol strtoull args queue_size value =
    Option.map (λ n. record args { queue_capacity = n }) (parse_size_arg strtoull value)
set_option strtol strtoull args _ value = none

is_help : Flag → Bool
is_help help = true
is_help _ = false

-- The loop, from `argv[i]` on; an option that is last has no value.
unfoldable pub parse_from : Strtol → Strtoull → ServerArgs → List Bytes → Option Asked
unfolding flag_of set_option check_dir is_help
parse_from strtol strtoull args [] = check_dir args
parse_from strtol strtoull args (arg ∷ []) = if is_help (flag_of arg) then some asks_help else none
parse_from strtol strtoull args (arg ∷ value ∷ rest) = elim (is_help (flag_of arg)) [
  | true ↦ some asks_help
  | false ↦ elim (set_option strtol strtoull args (flag_of arg) value) [
    | none ↦ none
    | some set ↦ parse_from strtol strtoull set rest
  ]
]

unfoldable pub parse_server_args : Strtol → Strtoull → List Bytes → Option Asked
unfolding parse_from
parse_server_args strtol strtoull = parse_from strtol strtoull defaults

-- `main` up to `server_run`: an exit code, or a server that runs.
pub data Start : Type 0 where
  exits : ℕ → Start
  runs : Server → Start

pub started : Option Server → Start
started none = exits 1
started (some server) = runs server

pub start_asked : Calls → Disk → Option Asked → Start
unfolding started
start_asked calls disk none = exits 1
start_asked calls disk (some asks_help) = exits 0
start_asked calls disk (some (serves config)) = started (server_init calls disk config)

unfoldable pub start_main : Strtol → Strtoull → Calls → Disk → List Bytes → Start
unfolding start_asked
start_main strtol strtoull calls disk args =
    start_asked calls disk (parse_server_args strtol strtoull args)
