-- ===== src/Keyboard.antt =====
-- kernel/input/keyboard.c: the queues of characters that the terminals have, and the flags for the keys that
-- are held down. A character is a number; what `clks_tty_count` and `clks_tty_active` say is an argument.
-- The reading of scan codes is not modelled, nor are lines that are logged.
pub mod Fifo
mod Tests
use clks.Base.{
  ℕ, zero, suc, ◌+◌, ◌-◌, ◌%◌, ◌^◌, Bool, true, false, Option, none, some, ltb, leb, ◌==◌,
  if◌then◌else◌, not, Array, update, add64,
}

-- CLKS_KBD_INPUT_CAP and CLKS_KBD_TTY_MAX
abbrev pub input_cap : ℕ
input_cap = 256

abbrev pub tty_max : ℕ
tty_max = 8

-- The queue of one terminal
pub record Queue : Type 0 where
  pub input : Array ℕ
  pub head : ℕ
  pub tail : ℕ
  pub count : ℕ

pub record Keyboard : Type 0 where
  pub queues : Array Queue
  pub alt_down : Bool
  pub lshift_down : Bool
  pub rshift_down : Bool
  pub lctrl_down : Bool
  pub rctrl_down : Bool
  pub e0_prefix : Bool
  pub force_stop_latch : Bool
  pub input_ready : Bool
  pub hotkey_switches : ℕ
  pub push_count : ℕ
  pub pop_count : ℕ
  pub drop_count : ℕ

unfoldable pub effective_tty_count : ℕ → ℕ
effective_tty_count tty_count =
    if tty_count == 0 then 1 else if ltb tty_max tty_count then tty_max else tty_count

unfoldable pub clamp_tty_index : ℕ → ℕ → ℕ
clamp_tty_index tty_count tty_index =
    if leb (effective_tty_count tty_count) tty_index then 0 else tty_index

-- What a push and a pop do to the queue
abbrev pub pushed : ℕ → Queue → Queue
pushed ch q = record q {
  input = update q.input q.head ch;
  head = (q.head + 1) % input_cap % 2 ^ 16;
  count = (q.count + 1) % 2 ^ 16;
}

abbrev pub popped : Queue → Queue
popped q = record q { tail = (q.tail + 1) % input_cap % 2 ^ 16; count = q.count - 1 }

-- `tty_count` is what `clks_tty_count` returns.
unfoldable pub queue_push_for_tty : ℕ → ℕ → ℕ → Keyboard → Bool × Keyboard
queue_push_for_tty tty_count tty_index ch k =
    let tty = clamp_tty_index tty_count tty_index in
    if leb input_cap (k.queues tty).count
    then (false, record k { drop_count = add64 k.drop_count 1 })
    else (
      true,
      record k {
        queues = update k.queues tty (pushed ch (k.queues tty));
        push_count = add64 k.push_count 1;
      },
    )

-- The loop of `clks_keyboard_inject_text_for_tty` from `at` on, on fuel
unfoldable pub inject_from : ℕ → ℕ → ℕ → Array ℕ → ℕ → Keyboard → Option (Bool × Keyboard)
inject_from zero tty_count tty_index text at k = none
inject_from (suc fuel) tty_count tty_index text at k =
    let (ok, k') = queue_push_for_tty tty_count tty_index (text at) k in
    let rest = inject_from fuel tty_count tty_index text (at + 1) k' in
    if text at == 0 then some (true, k) else if not ok then some (false, k') else rest

unfoldable pub inject_text_for_tty :
    ℕ → ℕ → ℕ → Option (Array ℕ) → Keyboard → Option (Bool × Keyboard)
inject_text_for_tty fuel tty_count tty_index none k = some (false, k)
inject_text_for_tty fuel tty_count tty_index (some text) k =
    inject_from fuel tty_count tty_index text 0 k

unfoldable pub reset_modifier_state : Keyboard → Keyboard
reset_modifier_state k = record k {
  alt_down = false;
  lshift_down = false;
  rshift_down = false;
  lctrl_down = false;
  rctrl_down = false;
  e0_prefix = false;
  force_stop_latch = false;
}

-- The loop that empties the queues
abbrev pub emptied : Array Queue → Array Queue
emptied queues tty =
    if ltb tty tty_max then record (queues tty) { head = 0; tail = 0; count = 0 } else queues tty

unfoldable pub init : Keyboard → Keyboard
unfolding reset_modifier_state
init k = record (reset_modifier_state (record k { queues = emptied k.queues })) {
  input_ready = false;
  hotkey_switches = 0;
  push_count = 0;
  pop_count = 0;
  drop_count = 0;
}

unfoldable pub flush : Keyboard → Keyboard
flush k = reset_modifier_state (record k { queues = emptied k.queues })

unfoldable pub set_input_ready : Bool → Keyboard → Keyboard
set_input_ready true k = record (flush k) { input_ready = true }
set_input_ready false k = flush (record k { input_ready = false })

-- The character, if there is one; where it goes is not null.
unfoldable pub pop_char_for_tty : ℕ → ℕ → Keyboard → Option ℕ × Keyboard
pop_char_for_tty tty_count tty_index k =
    let tty = clamp_tty_index tty_count tty_index in
    if (k.queues tty).count == 0 then (none, k) else (
      some ((k.queues tty).input (k.queues tty).tail),
      record k {
        queues = update k.queues tty (popped (k.queues tty));
        pop_count = add64 k.pop_count 1;
      },
    )

-- The index is what `clks_tty_active` returns.
unfoldable pub pop_char : ℕ → ℕ → Keyboard → Option ℕ × Keyboard
pop_char tty_count tty_active k = pop_char_for_tty tty_count tty_active k

unfoldable pub buffered_count_for_tty : ℕ → ℕ → Keyboard → ℕ
buffered_count_for_tty tty_count tty_index k =
    (k.queues (clamp_tty_index tty_count tty_index)).count

unfoldable pub sum_from : ℕ → ℕ → Array Queue → ℕ → ℕ
sum_from zero tty queues total = total
sum_from (suc rounds) tty queues total =
    sum_from rounds (tty + 1) queues (add64 total (queues tty).count)

unfoldable pub buffered_count : Keyboard → ℕ
buffered_count k = sum_from tty_max 0 k.queues 0
