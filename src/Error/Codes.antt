-- ===== src/Error/Codes.antt =====
-- The numeric codes that `let_error_code` sends to clients.
use let_dx.Base.{◌+◌, ◌*◌, ◌<◌, ◌^◌, ◌≡◌, arith}
use let_dx.Error.{
  Error, AccountError, StateError, GuardError, NetworkError, StorageError, CliError, none, account,
  state, guard, network, storage, cli, account_number, state_number, guard_number, network_number,
  storage_number, cli_number, error_id, error_number, error_code,
}

error_number_bounds : (e : Error) → error_number e < 1000
unfolding error_number
error_number_bounds e = ground arith

-- The code is written out by thousands, without wrapping at 16 bits.
error_code_split : (e : Error) → error_code e ≡ 1000 * error_id e + error_number e
unfolding error_code
error_code_split e = ground arith

error_id-injective : (a b : Error) → error_code a ≡ error_code b → error_id a ≡ error_id b
error_id-injective a b h =
    omega
      (arith, error_code_split a, error_code_split b, error_number_bounds a, error_number_bounds b)

account_number-injective : (a b : AccountError) → account_number a ≡ account_number b → a ≡ b
unfolding account_number
account_number-injective a b h = ground arith

state_number-injective : (a b : StateError) → state_number a ≡ state_number b → a ≡ b
unfolding state_number
state_number-injective a b h = ground arith

guard_number-injective : (a b : GuardError) → guard_number a ≡ guard_number b → a ≡ b
unfolding guard_number
guard_number-injective a b h = ground arith

network_number-injective : (a b : NetworkError) → network_number a ≡ network_number b → a ≡ b
unfolding network_number
network_number-injective a b h = ground arith

storage_number-injective : (a b : StorageError) → storage_number a ≡ storage_number b → a ≡ b
unfolding storage_number
storage_number-injective a b h = ground arith

cli_number-injective : (a b : CliError) → cli_number a ≡ cli_number b → a ≡ b
unfolding cli_number
cli_number-injective a b h = ground arith

-- Errors of one module with one number are the same error.
error-eq : (a b : Error) → error_id a ≡ error_id b → error_number a ≡ error_number b → a ≡ b
unfolding error_id error_number
error-eq none b h k = ground arith
error-eq (account a) (account b) h k = ground (arith, account_number-injective a b)
error-eq (state a) (state b) h k = ground (arith, state_number-injective a b)
error-eq (guard a) (guard b) h k = ground (arith, guard_number-injective a b)
error-eq (network a) (network b) h k = ground (arith, network_number-injective a b)
error-eq (storage a) (storage b) h k = ground (arith, storage_number-injective a b)
error-eq (cli a) (cli b) h k = ground (arith, cli_number-injective a b)
error-eq a b h k = absurd (unfold account_number in omega arith)

-- No two errors share a code: two errors whose codes are equal are the same error, and so only
-- the absence of an error has the code 0.
pub error_code-injective : (a b : Error) → error_code a ≡ error_code b → a ≡ b
error_code-injective a b h =
    let same = error_id-injective a b h in
    error-eq a b same (omega (arith, error_code_split a, error_code_split b))

pub error_code-lt : (e : Error) → error_code e < 256 ^ 2
unfolding error_code
error_code-lt e = ground arith
