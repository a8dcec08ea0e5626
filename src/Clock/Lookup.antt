-- ===== src/Clock/Lookup.antt =====
-- Library/ClockLib/clock.c: `GetClockNode`, and `ClockLibInit` and `ClockDeinit`, which map the
-- controllers, 255 at most. Names are their characters.
use cr_dk.Clock.Types.{ClockNode, ClockController, ClockDriverContext, info}
use cr_dk.Memmap.{DxeServices, map_device_io_region, un_map_mem_region}
use cr_dk.Status.{Status, cr_error}
use cr_dk.Mmio.{M, pure, ◌>>=◌}
use cr_dk.Base.{
  ℕ, ◌+◌, Bool, true, false, ◌&&◌, Option, none, some, List, [], ◌∷◌, ◌==◌, if◌then◌else◌,
  get_elem?,
}

-- `cr_strcmp(a, b) == 0`.
unfoldable pub same_name : List ℕ → List ℕ → Bool
same_name [] [] = true
same_name (x ∷ xs) (y ∷ ys) = (x == y) && same_name xs ys
same_name [] (y ∷ ys) = false
same_name (x ∷ xs) [] = false

-- What the out parameters point to: the controller's type and the clock's id are `none` for NULL.
pub record Found : Type 0 where
  pub controller_type : Option ℕ
  pub clock_id : Option ℕ
  pub target : Option ClockNode

abbrev stored : Option ℕ → ℕ → Option ℕ
stored none v = none
stored (some old) v = some v

-- The loop over the clocks of a controller: the first one of that name, and its number.
unfoldable pub find_clock : List ℕ → ℕ → List ClockNode → Option (ℕ × ClockNode)
unfolding same_name
find_clock name j [] = none
find_clock name j (c ∷ cs) =
    let rest = find_clock name (j + 1) cs in
    if same_name (info c).name name then some (j, c) else rest

-- The loop over the controllers. A match ends only the search in its controller, and a later one takes
-- its place.
unfoldable pub find_named : List ℕ → ℕ → List ClockController → Found → Found
unfolding find_clock
find_named name i [] found = found
find_named name i (c ∷ cs) found = find_named name (i + 1) cs (elim (find_clock name 0 c.clks) [
  | none ↦ found
  | some (j, node) ↦ record {
    controller_type = stored found.controller_type i;
    clock_id = stored found.clock_id j;
    target = some node;
  }
])

-- The clock of a controller's type and its number, both given: `none` where a NULL pointer is followed
-- or the type is out of the array.
abbrev pub by_id : Option ClockDriverContext → Found → Option (Status × Found)
by_id none found = none
by_id (some context) found = elim found.clock_id [
  | none ↦ none
  | some id ↦ elim found.controller_type [
    | none ↦ none
    | some type ↦ elim (get_elem? context.clock_controllers type) [
      | none ↦ none
      | some c ↦ elim (get_elem? c.clks id) [
        | none ↦ some (Status.invalid_parameter, found)
        | some node ↦ some (Status.success, record found { target = some node })
      ]
    ]
  ]
]

abbrev pub status_of_target : Found → Status × Found
status_of_target found = elim found.target [
  | none ↦ (Status.not_found, found)
  | some node ↦ (Status.success, found)
]

abbrev is_null : {A : Type 0} → Option A → Bool
is_null none = true
is_null (some a) = false

-- `GetClockNode`: `none` where a NULL pointer is followed. `found` is what the out parameters point to
-- before the call.
unfoldable pub get_clock_node :
    Option ClockDriverContext → Option (List ℕ) → Found → Option (Status × Found)
unfolding find_named
get_clock_node context name found =
    if is_null context && is_null found.controller_type && is_null found.clock_id
    then some (Status.invalid_parameter, found)
    else elim name [
      | none ↦ by_id context found
      | some n ↦ elim context [
        | none ↦ none
        | some c ↦ some (status_of_target (find_named n 0 c.clock_controllers found))
      ]
    ]

module _ {S : Type 0} (dxe : DxeServices S) where
  -- The loop of `ClockLibInit`; a controller that is not mapped is only logged.
  unfoldable pub map_controllers : List ClockController → M S (List ClockController)
  unfolding map_device_io_region
  map_controllers [] = pure []
  map_controllers (c ∷ cs) = do
    status ← map_device_io_region dxe c.address c.size
    mapped ← map_controllers cs
    pure ((if cr_error status then c else record c { mem_mapped = true }) ∷ mapped)

  -- `ClockLibInit`, with whether the out parameter is not NULL. The target gives the context, or NULL,
  -- and the function called at last.
  unfoldable pub clock_lib_init :
      (List ClockController → M S Status)
      → Bool
      → Option (List ClockController)
      → M S (Status × List ClockController)
  unfolding map_controllers
  clock_lib_init target_init false target = pure (Status.invalid_parameter, [])
  clock_lib_init target_init true none = pure (Status.not_found, [])
  clock_lib_init target_init true (some controllers) = do
    mapped ← map_controllers controllers
    status ← target_init mapped
    pure (status, mapped)

  -- The loop of `ClockDeinit`; the status is the last one of a controller that was mapped.
  unfoldable pub unmap_controllers :
      List ClockController → Status → M S (Status × List ClockController)
  unfolding un_map_mem_region
  unmap_controllers [] status = pure (status, [])
  unmap_controllers (c ∷ cs) status = elim c.mem_mapped [
    | false ↦ do rest ← unmap_controllers cs status; pure (rest.0, c ∷ rest.1)
    | true ↦ do
      unmapped ← un_map_mem_region dxe c.address c.size
      rest ← unmap_controllers cs unmapped
      pure (rest.0, (if cr_error unmapped then c else record c { mem_mapped = false }) ∷ rest.1)
  ]

  -- `ClockDeinit`.
  unfoldable pub clock_deinit : Option (List ClockController) → M S (Status × List ClockController)
  unfolding unmap_controllers
  clock_deinit none = pure (Status.not_found, [])
  clock_deinit (some controllers) = unmap_controllers controllers Status.success
