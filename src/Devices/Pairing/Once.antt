-- ===== src/Devices/Pairing/Once.antt =====
-- pkg/devices/pairing.go: calls on the manager, and the use of a code.
use moon_hub.Base.{
  ℕ, ◌≡◌, String, Bool, true, false, not, ◌&&◌, Option, none, some, List, [], ◌∷◌, str_eq, eq_iff,
  lookup-insert_self, arith, All,
}
use moon_hub.Devices.Store.{PairedDevice, add_device, get_device, save}
use moon_hub.Devices.Pairing.{
  PairingManager, is_unused, new_code, generate_code_once, get_current_code, PairingResult, success,
  store_failed, paired, pair_device, validate_code, retire, regenerate_code,
}

-- A call on the manager, with what its surroundings give.
pub data PairOp : Type 0 where
  generate : ℕ → Option String → PairOp
  regenerate : ℕ → Option String → PairOp
  validate : ℕ → Bool → Option String → String → PairedDevice → PairOp

unfoldable pub apply_op : PairOp → PairingManager → PairingManager
apply_op (generate now fresh) pm = (generate_code_once now fresh pm).0
apply_op (regenerate now fresh) pm = (regenerate_code now fresh pm).0
apply_op (validate now writes token code device) pm =
    (validate_code now writes token code device pm).0

unfoldable pub apply_ops : List PairOp → PairingManager → PairingManager
apply_ops [] pm = pm
apply_ops (op ∷ ops) pm = apply_ops ops (apply_op op pm)

-- The call draws the code.
abbrev pub draws : String → PairOp → Bool
draws code (generate _ (some fresh)) = str_eq fresh code
draws code (regenerate _ (some fresh)) = str_eq fresh code
draws code _ = false

-- The code does not pair any more: it is not the current one, or it is used.
abbrev pub is_spent : String → PairingManager → Bool
is_spent code pm = elim pm.current [
  | none ↦ true
  | some c ↦ not (str_eq c.code code && is_unused c)
]

abbrev pub succeeds : PairingResult → Bool
succeeds (success _ _ _) = true
succeeds _ = false

apply_op-spent :
    (code : String) (op : PairOp) (pm : PairingManager)
    → draws code op ≡ false
    → is_spent code pm ≡ true
    → is_spent code (apply_op op pm) ≡ true
unfolding apply_op generate_code_once regenerate_code validate_code pair_device add_device save
    retire new_code
apply_op-spent code (generate now none) pm d h = ground arith
apply_op-spent code (generate now (some fresh)) pm d h = ground arith
apply_op-spent code (regenerate now none) pm d h = ground arith
apply_op-spent code (regenerate now (some fresh)) pm d h = ground arith
apply_op-spent code (validate now writes none c device) pm d h = ground arith
apply_op-spent code (validate now writes (some token) c device) pm d h = ground arith

apply_ops-spent :
    (code : String) (ops : List PairOp) (pm : PairingManager)
    → All (λ op. draws code op ≡ false) ops
    → is_spent code pm ≡ true
    → is_spent code (apply_ops ops pm) ≡ true
unfolding apply_ops
apply_ops-spent code [] pm d h = h
apply_ops-spent code (op ∷ ops) pm d h =
    apply_ops-spent code ops (apply_op op pm) d.1 (apply_op-spent code op pm d.0 h)

validate_code-spends :
    (now : ℕ) (writes : Bool) (token : Option String) (code : String) (device : PairedDevice)
    (pm : PairingManager)
    → succeeds (validate_code now writes token code device pm).1 ≡ true
    → is_spent code (validate_code now writes token code device pm).0 ≡ true
unfolding validate_code pair_device add_device save
validate_code-spends now writes none code device pm h = ground arith
validate_code-spends now writes (some token) code device pm h = ground arith

spent-fails :
    (now : ℕ) (writes : Bool) (token : Option String) (code : String) (device : PairedDevice)
    (pm : PairingManager)
    → is_spent code pm ≡ true
    → succeeds (validate_code now writes token code device pm).1 ≡ false
unfolding validate_code pair_device add_device save
spent-fails now writes none code device pm h = ground arith
spent-fails now writes (some token) code device pm h = ground arith

-- A code pairs at most once: after a `ValidateCode` that succeeds, and any calls that do not draw
-- the same code again, no `ValidateCode` of the code succeeds.
pub pairs_once :
    (now later : ℕ) (writes writes' : Bool) (token token' : Option String) (code : String)
    (device device' : PairedDevice) (ops : List PairOp) (pm : PairingManager)
    → succeeds (validate_code now writes token code device pm).1 ≡ true
    → All (λ op. draws code op ≡ false) ops
    → succeeds
        (validate_code later writes' token' code device'
          (apply_ops ops (validate_code now writes token code device pm).0)).1
      ≡ false
pairs_once now later writes writes' token token' code device device' ops pm h d =
    spent-fails later writes' token' code device' _
      (apply_ops-spent code ops _ d (validate_code-spends now writes token code device pm h))

-- With a token and a working disk, `ValidateCode` succeeds exactly for the code that
-- `GetCurrentCode` shows.
pub validate_code-get_current_code :
    (now : ℕ) (token code : String) (device : PairedDevice) (pm : PairingManager)
    → str_eq code "" ≡ false
    → succeeds (validate_code now true (some token) code device pm).1
      ≡ str_eq (get_current_code now pm) code
unfolding validate_code pair_device add_device save get_current_code
validate_code-get_current_code now token code device pm h =
    ground (arith, eq_iff "" code, eq_iff code "")

-- When the file cannot be written, `ValidateCode` fails, and yet the device is paired in memory and
-- the code still pairs.
pub validate_code-store_failed :
    (now : ℕ) (token code : String) (device : PairedDevice) (pm : PairingManager)
    → str_eq code "" ≡ false
    → get_current_code now pm ≡ code
    → let r = validate_code now false (some token) code device pm in
      (r.1 ≡ store_failed)
      × (get_device device.id r.0.device_store ≡ some (paired now token device))
      × (get_current_code now r.0 ≡ code)
unfolding validate_code pair_device add_device save get_current_code get_device
validate_code-store_failed now token code device pm h e = (
  ground (arith, eq_iff code code, eq_iff code ""),
  ground (
    arith,
    eq_iff code code,
    eq_iff code "",
    lookup-insert_self device.id (paired now token device) pm.device_store.devices,
  ),
  ground (arith, eq_iff code code, eq_iff code ""),
)
