-- ===== src/Console.antt =====
-- src/drivers/VGA/vga_buffer.c and `keyboard_callback` of src/drivers/keyboard/keyboard.c: the buffers
-- of the line and of the editor, the commands, and what a key does. The texts of the messages are data,
-- and so a parameter; the command of the interrupt controller behind each key is left out.
pub mod Line
pub mod Split
mod Tests
use lazy_os.Prelude.{
  ℕ, zero, suc, ◌+◌, ◌-◌, ◌%◌, ◌^◌, Bool, true, false, not, ◌&&◌, List, [], ◌∷◌, Option, none, some,
  bit_and, ◌==◌, ltb, leb, if◌then◌else◌, update, fill,
}
use lazy_os.Kheap.{Kernel, kzalloc}
use lazy_os.Str.{strcomp}
use lazy_os.Vga.{
  Terminal, print, terminal_clear, save_window_content, retrive_saved_window, enter_editor_mode,
  new_line,
}
use lazy_os.Keyboard.{return_letter, backspace_code}

abbrev pub buffer_size : ℕ
buffer_size = 4096

-- A buffer and its position, which is a byte.
pub record Buffer : Type 0 where
  pub chars : ℕ → ℕ
  pub position : ℕ

unfoldable pub init_keyboard_buffer : Kernel → ℕ × Kernel
init_keyboard_buffer k = kzalloc buffer_size k

-- Nothing is stored where the buffer is full; the test stands for the message.
unfoldable pub input_into_buffer : (ch : ℕ) → Buffer → Bool × Buffer
input_into_buffer ch b = if leb buffer_size b.position then (true, b) else (
  false,
  record { chars = update b.chars b.position ch; position = (b.position + 1) % 2 ^ 8 },
)

-- The test is on the position of the other buffer, the line's.
unfoldable pub input_into_editor_buffer : (position ch : ℕ) → Buffer → Bool × Buffer
input_into_editor_buffer position ch b = if leb buffer_size position then (true, b) else (
  false,
  record { chars = update b.chars b.position ch; position = (b.position + 1) % 2 ^ 8 },
)

unfoldable pub clear_buffer : Buffer → Buffer
clear_buffer b = record { chars = fill b.chars 0 buffer_size 0; position = 0 }

unfoldable pub remove_one_from_buffer : Buffer → Buffer
remove_one_from_buffer b =
    if b.position == 0
    then b
    else record { chars = update b.chars (b.position - 1) 0; position = b.position - 1 }

-- The loop that splits the line at its first space, with `k` characters left, from the character `i`:
-- the line, and the place of the second word.
unfoldable pub split_loop : (k : ℕ) → (buff : ℕ → ℕ) → (i : ℕ) → (ℕ → ℕ) × Option ℕ
split_loop zero buff i = (buff, none)
split_loop (suc k) buff i =
    let rest = split_loop k buff (i + 1) in
    if buff i == 0
    then (buff, none)
    else if buff i == 32
    then (update buff i 0, some (i + 1))
    else rest

unfoldable pub split : (buff : ℕ → ℕ) → (ℕ → ℕ) × Option ℕ
unfolding split_loop
split buff = split_loop buffer_size buff 0

-- A string constant in memory.
abbrev pub text : List ℕ → ℕ → ℕ
text [] j = 0
text (c ∷ cs) zero = c
text (c ∷ cs) (suc j) = text cs j

-- What a line asks for.
pub data Command : Type 0 where
  nothing ask_test ask_clear ask_time ask_list ask_usage not_recognized : Command
  ask_read ask_write ask_delete : (name : ℕ → ℕ) → Command

abbrev pub with_name : (ask : (ℕ → ℕ) → Command) → (buff : ℕ → ℕ) → Option ℕ → Command
with_name ask buff none = ask_usage
with_name ask buff (some i) = ask λ j. buff (i + j)

-- The comparisons of `bufferTestCommand`, in their order.
unfoldable pub command : (buff : ℕ → ℕ) → (second : Option ℕ) → Command
command buff second =
    let is = λ (word : List ℕ). (strcomp (buffer_size + 1) buff (text word)) in
    if buff 0 == 0
    then nothing
    else if is (116 ∷ 101 ∷ 115 ∷ 116 ∷ [])
    then ask_test
    else if is (99 ∷ 108 ∷ 101 ∷ 97 ∷ 114 ∷ [])
    then ask_clear
    else if is (103 ∷ 101 ∷ 116 ∷ 45 ∷ 116 ∷ 105 ∷ 109 ∷ 101 ∷ [])
    then ask_time
    else if is (114 ∷ 101 ∷ 97 ∷ 100 ∷ [])
    then with_name ask_read buff second
    else if is (119 ∷ 114 ∷ 105 ∷ 116 ∷ 101 ∷ [])
    then with_name ask_write buff second
    else if is (100 ∷ 101 ∷ 108 ∷ 101 ∷ 116 ∷ 101 ∷ [])
    then with_name ask_delete buff second
    else if is (108 ∷ 115 ∷ [])
    then ask_list
    else not_recognized

-- The characters of a string, up to a number of them.
unfoldable pub chars_of : (k : ℕ) → (str : ℕ → ℕ) → (i : ℕ) → List ℕ
chars_of zero str i = []
chars_of (suc k) str i =
    let rest = chars_of k str (i + 1) in if str i == 0 then [] else str i ∷ rest

-- The loop that copies the name of the file, with `k` characters left, and the null character behind
-- it. The array has ten characters: the index 10 names the byte behind it.
unfoldable pub copy_name : (k : ℕ) → (name filename : ℕ → ℕ) → (i : ℕ) → ℕ → ℕ
copy_name zero name filename i = update filename i 0
copy_name (suc k) name filename i =
    let rest = copy_name k name (update filename i (name i)) (i + 1) in
    if name i == 0 then update filename i 0 else rest

pub data Mode : Type 0 where
  terminal editor : Mode

-- The first of two in the terminal, the second in the editor.
abbrev pub by_mode {ℓ} : {A : Type ℓ} → Mode → A → A → A
by_mode terminal a b = a
by_mode editor a b = b

-- What the commands call: the operations on files and the clock, which also write to the terminal.
pub record Services : Type 1 where
  pub State : Type 0
  pub test : Terminal × State → Terminal × State
  pub time : Terminal × State → Terminal × State
  pub list : Terminal × State → Terminal × State
  pub read : (name : ℕ → ℕ) → Terminal × State → Terminal × State
  pub delete : (name : ℕ → ℕ) → Terminal × State → Terminal × State
  pub create : (name content : ℕ → ℕ) → (size : ℕ) → Terminal × State → Terminal × State
  pub usage_text : Command → List ℕ
  pub full_text : List ℕ

module _ (v : Services) where
  -- The variables of the two files, with the terminal and the state of the services.
  pub record Console : Type 0 where
    pub mode : Mode
    pub line : Buffer
    pub page : Buffer
    pub editor_filename : ℕ → ℕ
    pub world : Terminal × v.State

  abbrev pub on_screen : (Terminal → Terminal) → Console → Console
  on_screen f c = record c { world = (f c.world.0, c.world.1) }

  unfoldable pub input_line : (ch : ℕ) → Console → Console
  input_line ch c =
      let (full, line) = input_into_buffer ch c.line in
      if full then on_screen (print v.full_text) c else record c { line = line }

  unfoldable pub input_page : (ch : ℕ) → Console → Console
  input_page ch c =
      let (full, page) = input_into_editor_buffer c.line.position ch c.page in
      if full then on_screen (print v.full_text) c else record c { page = page }

  unfoldable pub open_editor : (name : ℕ → ℕ) → Console → Console
  open_editor name c =
      let show = λ (t : Terminal).
        (enter_editor_mode (chars_of buffer_size name 0) (save_window_content t)) in
      record (on_screen show c) {
        editor_filename = copy_name 10 name c.editor_filename 0;
        mode = editor;
      }

  unfoldable pub run_command : Command → Console → Console
  unfolding open_editor
  run_command nothing c = c
  run_command ask_test c = record c { world = v.test c.world }
  run_command ask_clear c = on_screen terminal_clear c
  run_command ask_time c = record c { world = v.time c.world }
  run_command ask_list c = record c { world = v.list c.world }
  run_command ask_usage c = on_screen (print (v.usage_text ask_usage)) c
  run_command not_recognized c = on_screen (print (v.usage_text not_recognized)) c
  run_command (ask_read name) c = record c { world = v.read name c.world }
  run_command (ask_write name) c = open_editor name c
  run_command (ask_delete name) c = record c { world = v.delete name c.world }

  unfoldable pub buffer_test_command : Console → Console
  unfolding run_command
  buffer_test_command c =
      let (buff, second) = split c.line.chars in
      run_command (command buff second) (record c { line = record c.line { chars = buff } })

  -- The key that leaves the editor.
  unfoldable pub leave_editor : Console → Console
  leave_editor c =
      let world = v.create c.editor_filename c.page.chars c.page.position c.world in
      on_screen retrive_saved_window
        (record c { world = world; page = clear_buffer c.page; mode = terminal })

  unfoldable pub remove_one : Console → Console
  remove_one c =
      by_mode c.mode (record c { line = remove_one_from_buffer c.line })
        (record c { page = remove_one_from_buffer c.page })

  -- What a character does to the buffers.
  unfoldable pub enter_char : (ch : ℕ) → Console → Console
  unfolding input_line input_page buffer_test_command
  enter_char ch c =
      let shown = on_screen (print (new_line ∷ [])) c in
      let ran = buffer_test_command shown in
      let cleared = record ran { line = clear_buffer ran.line } in
      if ch == new_line
      then by_mode c.mode cleared (input_page ch shown)
      else if not (ch == 0)
      then by_mode c.mode (input_line ch c) (input_page ch c)
      else c

  abbrev pub is_editor : Mode → Bool
  is_editor terminal = false
  is_editor editor = true

  unfoldable pub keyboard_callback : (scan_code : ℕ) → Console → Console
  unfolding leave_editor remove_one enter_char
  keyboard_callback scan_code c =
      let (ch, screen) = return_letter scan_code c.world.0 in
      let echo = if ch == 0 then [] else ch ∷ [] in
      let shown = record c { world = (print echo screen, c.world.1) } in
      let removed = if scan_code == backspace_code then remove_one shown else shown in
      if not (bit_and scan_code 0x80 == 0)
      then c
      else if is_editor c.mode && (scan_code == 0x01)
      then leave_editor c
      else enter_char ch removed
