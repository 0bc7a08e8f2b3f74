-- ===== src/Errm/State.antt =====
-- The data of src/errm/errm.c: error codes, one frame of deferred calls, the stack of frames.
-- `W` is the state that a deferred call can reach (memory, open directories, …).
use prom.Prelude.{ℕ, ◌*◌, List, [], ◌∷◌}
use prom.Prelude.Int.{ℤ}
use prom.Prelude.Bytes.{Bytes, codes}
use prom.Machine.{Cmd}

-- enum error_codes; 0 is "no error"
abbrev pub no_permissions : ℕ
no_permissions = 1

abbrev pub not_enough_memory : ℕ
not_enough_memory = 2

abbrev pub not_the_expected : ℕ
not_the_expected = 3

abbrev pub does_not_exist : ℕ
does_not_exist = 4

abbrev pub limit_exceeded : ℕ
limit_exceeded = 5

abbrev pub parsing_error : ℕ
parsing_error = 6

abbrev pub dyn_shared_obj_error : ℕ
dyn_shared_obj_error = 7

abbrev pub unknown_error : ℕ
unknown_error = 8

abbrev pub error_codes_len : ℕ
error_codes_len = 9

abbrev pub error_messages : List Bytes
error_messages =
    codes ""
    ∷ codes "Permission denied"
    ∷ codes "Not enough memory available"
    ∷ codes "Not the expected"
    ∷ codes "Does not exist"
    ∷ codes "Limit exceeded"
    ∷ codes "Parsing error"
    ∷ codes "Can't load (symbols from) a Dynamic Shared Oject"
    ∷ codes "An unkown error occured"
    ∷ []

abbrev pub stack_size : ℕ
stack_size = 12

abbrev pub max_dyn_defers : ℕ
max_dyn_defers = 12

abbrev pub max_static_defers : ℕ
max_static_defers = 6

-- MAX_STATIC_DEFERS * sizeof(void *)
abbrev pub pool_size : ℕ
pool_size = max_static_defers * 8

-- What a `void *` argument gives a handler: an address, or the object in the pool that starts
-- there, as the value that is stored at each offset from it.
pub data Arg : Type 0 where
  addr : ℕ → Arg
  object : (ℕ → ℕ) → Arg

-- void (*handle)(void *)
abbrev pub Handle : Type 0 → Type 0
Handle W = Arg → Cmd W (Unit {0})

-- struct defer_data_t with its struct defer_mem_pool_t; a pool pointer is its offset.
pub record Frame (W : Type 0) : Type 0 where
  pub static_defers : ℕ → Handle W
  pub static_defer_args : ℕ → ℕ
  pub dyn_defers : ℕ → Handle W
  pub dyn_defer_args : ℕ → ℕ
  pub pool_data : ℕ → ℕ
  pub pool_used : ℕ
  pub static_len : ℕ
  pub dyn_len : ℕ

-- The thread's `errm`, its `errno` and its `defer_stack`, beside the world.
pub record Sys (W : Type 0) : Type 0 where
  pub err_code : ℕ
  pub errno : ℕ
  pub stack : ℕ → Frame W
  pub curr : ℤ
  pub world : W
