-- ===== src/Keyboard/Tests.antt =====
-- Tests of kernel/input/keyboard.c on a keyboard after its start-up.
use clks.Base.{
  ℕ, ◌+◌, ◌%◌, ◌<◌, ◌≡◌, ◌≢◌, arith, refl, true, false, some, ◌==◌, if◌then◌else◌, Array, ap,
}
use clks.Keyboard.{
  Keyboard, effective_tty_count, clamp_tty_index, inject_text_for_tty, pop_char_for_tty,
  reset_modifier_state, init, buffered_count, sum_from,
}
use clks.Keyboard.Fifo.{
  Holds, Injected, inject_text_for_tty-Injected, Takes, pop_char_for_tty-Takes,
}

-- What the memory holds before the start-up
abbrev before : Keyboard
before = record {
  queues = λ _. record { input = λ _. 0; head = 7; tail = 9; count = 3 };
  alt_down = true;
  lshift_down = false;
  rshift_down = false;
  lctrl_down = false;
  rctrl_down = false;
  e0_prefix = true;
  force_stop_latch = false;
  input_ready = true;
  hotkey_switches = 1;
  push_count = 5;
  pop_count = 2;
  drop_count = 1;
}

-- The text `ok`
abbrev text : Array ℕ
text i = if i == 0 then 111 else if i == 1 then 107 else 0

started-Holds : Holds ((init before).queues (clamp_tty_index 4 2)) 0 (λ _. 0)
unfolding init reset_modifier_state clamp_tty_index effective_tty_count
started-Holds = record {
  count = refl;
  room = omega arith;
  tail = omega arith;
  head = refl;
  items = λ i lt. absurd (omega arith);
}

inject_text_for_tty-Injected_example :
    Injected 4 2 2 0 0
      (λ _. 0)
      text
      (init before)
      (inject_text_for_tty 3 4 2 (some text) (init before))
inject_text_for_tty-Injected_example =
    inject_text_for_tty-Injected 4 2 2 3 0 (λ _. 0) text (init before) (omega arith)
      (λ i lt. char i lt) refl started-Holds
  where
    char : (i : ℕ) → i < 2 → text i ≢ 0
    char i lt z = absurd (ground arith)

-- A keyboard that holds the text for its first terminal
abbrev typed : Keyboard
typed = record before { queues = λ _. record { input = text; head = 2; tail = 0; count = 2 } }

typed-Holds : Holds (typed.queues (clamp_tty_index 4 0)) 2 text
unfolding clamp_tty_index effective_tty_count
typed-Holds = record {
  count = refl;
  room = omega arith;
  tail = omega arith;
  head = refl;
  items = λ i lt. let same : (0 + i) % 256 ≡ i = omega arith in ap text same;
}

pop_char_for_tty-Takes_example : Takes 4 0 2 text typed (pop_char_for_tty 4 0 typed)
pop_char_for_tty-Takes_example = pop_char_for_tty-Takes 4 0 2 text typed typed-Holds

pops : (pop_char_for_tty 4 0 typed).0 ≡ some 111
unfolding pop_char_for_tty clamp_tty_index effective_tty_count
pops = refl

counts : buffered_count typed ≡ 16
unfolding buffered_count sum_from
counts = refl
