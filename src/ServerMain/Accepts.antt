-- ===== src/ServerMain/Accepts.antt =====
-- src/server_main.c: the settings that the server program hands to `server_init`.
use threaded_db_api_server.Prelude.{
  ℕ, ◌≤◌, ◌≡◌, refl, Bool, true, false, Option, none, some, List, [], ◌∷◌, if◌then◌else◌, arith,
  subst,
}
use mathlib.Core.Option
use threaded_db_api_server.Prelude.Bytes.{Bytes}
use threaded_db_api_server.Http.Head.{Strtoull}
use threaded_db_api_server.Server.Run.{ServerConfig, is_valid_config}
use threaded_db_api_server.ServerMain.{
  Strtol, checked_value, parse_int_arg, not_zero, parse_size_arg, ServerArgs, defaults, asks_help,
  serves, check_dir, Flag, help, db, port, threads, queue_size, other, flag_of, set_option, is_help,
  parse_from, parse_server_args,
}

-- Settings in their ranges.
record InRange (args : ServerArgs) : Type 0 where
  port : (1 ≤ args.port) × (args.port ≤ 65535)
  threads : 1 ≤ args.thread_count
  queue : 1 ≤ args.queue_capacity

int_arg_lem :
    (strtol : Strtol) (text : Bytes) (n : ℕ)
    → parse_int_arg strtol text 1 65535 ≡ some n
    → (1 ≤ n) × (n ≤ 65535)
unfolding parse_int_arg
int_arg_lem strtol [] n e = absurd (cc e)
int_arg_lem strtol (c ∷ cs) n e = go (strtol (c ∷ cs)) e
  where
    go : (read : Option ℕ × Bytes) → checked_value 1 65535 read ≡ some n → (1 ≤ n) × (n ≤ 65535)
    go (none, rest) e = absurd (cc e)
    go (some k, []) e = ground (arith, e)
    go (some k, b ∷ bs) e = absurd (cc e)

size_arg_lem :
    (strtoull : Strtoull) (text : Bytes) (n : ℕ) → parse_size_arg strtoull text ≡ some n → 1 ≤ n
unfolding parse_size_arg
size_arg_lem strtoull [] n e = absurd (cc e)
size_arg_lem strtoull (c ∷ cs) n e = go (strtoull (c ∷ cs)) e
  where
    go : (read : ℕ × Bytes) → not_zero read ≡ some n → 1 ≤ n
    go (k, []) e = ground (arith, e)
    go (k, b ∷ bs) e = absurd (cc e)

-- A value that was read, put into the settings.
map-InRange :
    (put : ℕ → ServerArgs) (read : Option ℕ) {set : ServerArgs}
    → ((n : ℕ) → read ≡ some n → InRange (put n))
    → Option.map put read ≡ some set
    → InRange set
map-InRange put none h e = absurd (cc e)
map-InRange put (some n) {set} h e = subst InRange {x = put n} {y = set} (cc e) (h n refl)

-- An option that is taken leaves the settings in their ranges.
set_option-InRange :
    (strtol : Strtol) (strtoull : Strtoull) (args set : ServerArgs) (flag : Flag) (value : Bytes)
    → InRange args
    → set_option strtol strtoull args flag value ≡ some set
    → InRange set
unfolding set_option
set_option-InRange strtol strtoull args set db value h e =
    let named : ServerArgs = record args { db_dir = some value } in
    subst InRange {x = named} {y = set} (cc e)
      (record { port = h.port; threads = h.threads; queue = h.queue })
set_option-InRange strtol strtoull args set port value h e =
    map-InRange (λ n. record args { port = n }) (parse_int_arg strtol value 1 65535)
      (λ n p. record { port = int_arg_lem strtol value n p; threads = h.threads; queue = h.queue })
      e
set_option-InRange strtol strtoull args set threads value h e =
    map-InRange (λ n. record args { thread_count = n }) (parse_size_arg strtoull value)
      (λ n p. record { port = h.port; threads = size_arg_lem strtoull value n p; queue = h.queue })
      e
set_option-InRange strtol strtoull args set queue_size value h e =
    map-InRange (λ n. record args { queue_capacity = n }) (parse_size_arg strtoull value)
      (λ n p. record {
        port = h.port;
        threads = h.threads;
        queue = size_arg_lem strtoull value n p;
      })
      e
set_option-InRange strtol strtoull args set help value h e = absurd (cc e)
set_option-InRange strtol strtoull args set other value h e = absurd (cc e)

check_dir-is_valid_config :
    (args : ServerArgs) (config : ServerConfig)
    → InRange args
    → check_dir args ≡ some (serves config)
    → is_valid_config config ≡ true
unfolding check_dir is_valid_config
check_dir-is_valid_config args config h e = go args.db_dir e
  where
    of_dir : Bytes → ServerConfig
    of_dir dir = record {
      db_dir = dir;
      port = args.port;
      thread_count = args.thread_count;
      queue_capacity = args.queue_capacity;
    }

    go :
        (o : Option Bytes)
        → (elim o [ none ↦ none | some dir ↦ some (serves (of_dir dir)) ]) ≡ some (serves config)
        → is_valid_config config ≡ true
    go none e = absurd (cc e)
    go (some dir) e =
        let (low, high) = h.port in
        let threads = h.threads in
        let queue = h.queue in
        subst (λ c. is_valid_config c ≡ true) {x = of_dir dir} {y = config} (cc e) (ground arith)

from_lem :
    (strtol : Strtol) (strtoull : Strtoull) (args : ServerArgs) (rest : List Bytes)
    (config : ServerConfig)
    → InRange args
    → parse_from strtol strtoull args rest ≡ some (serves config)
    → is_valid_config config ≡ true
unfolding parse_from
from_lem strtol strtoull args [] config h e = check_dir-is_valid_config args config h e
from_lem strtol strtoull args (arg ∷ []) config h e = absurd (go (is_help (flag_of arg)) e)
  where
    go : (b : Bool) → (if b then some asks_help else none) ≡ some (serves config) → ⊥
    go true e = absurd (cc e)
    go false e = absurd (cc e)
from_lem strtol strtoull args (arg ∷ value ∷ rest) config h e =
    go (is_help (flag_of arg)) (set_option strtol strtoull args (flag_of arg) value) refl
      (λ set k. from_lem strtol strtoull set rest config k) e
  where
    go :
        (b : Bool) (o : Option ServerArgs)
        → set_option strtol strtoull args (flag_of arg) value ≡ o
        → ((set : ServerArgs)
            → InRange set
            → parse_from strtol strtoull set rest ≡ some (serves config)
            → is_valid_config config ≡ true)
        → (elim b [
          | true ↦ some asks_help
          | false ↦ elim o [ none ↦ none | some set ↦ parse_from strtol strtoull set rest ]
        ])
          ≡ some (serves config)
        → is_valid_config config ≡ true
    go true o p ih e = absurd (cc e)
    go false none p ih e = absurd (cc e)
    go false (some set) p ih e =
        ih set (set_option-InRange strtol strtoull args set (flag_of arg) value h p) e

-- The settings that the server program takes from its arguments, whatever `strtol` and `strtoull`
-- read in them, are those that `server_init` takes as valid.
pub parse_server_args-is_valid_config :
    (strtol : Strtol) (strtoull : Strtoull) (args : List Bytes) (config : ServerConfig)
    → parse_server_args strtol strtoull args ≡ some (serves config)
    → is_valid_config config ≡ true
unfolding parse_server_args
parse_server_args-is_valid_config strtol strtoull args config e =
    from_lem strtol strtoull defaults args config
      (record { port = (omega arith, omega arith); threads = omega arith; queue = omega arith }) e
