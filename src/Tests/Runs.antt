-- ===== src/Tests/Runs.antt =====
-- A sequence of operations of the memory manager, and the theorem about it at a concrete input.
use emulator_momo.Common.{◌≡◌, refl, Bool, false, arith, ok}
use emulator_momo.Memory.Reserved.{Outcome}
use emulator_momo.Memory.Reserved.Valid.{mapped_at}
use emulator_momo.Memory.Manager.{decommit_memory, allocate_memory}
use emulator_momo.Memory.Manager.Decommit.{decommit_memory-Decommitted}
use emulator_momo.Memory.Manager.Steps.{
  Machine, after, done, more, decommitting, allocating, IsInStep,
}
use emulator_momo.Memory.Manager.Runs.{Run-IsInStep}
use emulator_momo.Tests.Memory.{one_stack, one_stack-IsValid, stack_entry, stack_target}

abbrev stack_machine : Machine
stack_machine = record { regions = one_stack; backend = mapped_at one_stack }

-- The stack without the range 0x11000 to 0x14000.
abbrev decommitted : Outcome Bool
decommitted =
    (decommit_memory-Decommitted one_stack 0x11000 0x3000 0x10000 stack_entry stack_target refl).0

decommit_runs : decommit_memory one_stack 0x11000 0x3000 ≡ ok decommitted
decommit_runs =
    (decommit_memory-Decommitted one_stack 0x11000 0x3000 0x10000 stack_entry stack_target refl).1

abbrev after_allocation : Outcome Bool
after_allocation = allocate_memory decommitted.regions 0x20000 0x1000 1 false

Run-IsInStep_example : IsInStep (after (after stack_machine decommitted) after_allocation)
Run-IsInStep_example =
    Run-IsInStep stack_machine (after (after stack_machine decommitted) after_allocation)
      (more stack_machine (after stack_machine decommitted)
        (after (after stack_machine decommitted) after_allocation)
        (decommitting stack_machine 0x11000 0x3000 decommitted decommit_runs (omega arith))
        (more (after stack_machine decommitted)
          (after (after stack_machine decommitted) after_allocation)
          (after (after stack_machine decommitted) after_allocation)
          (allocating (after stack_machine decommitted) 0x20000 0x1000 1 false (omega arith)
            (omega arith))
          (done (after (after stack_machine decommitted) after_allocation))))
      (record { valid = one_stack-IsValid; mirrored = λ x. refl })
