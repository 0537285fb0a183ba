-- ===== src/Isr/Examples.antt =====
-- The theorems on the dispatch with controllers that serve the line of the timer.
use Prim.Native.String.{String}
use os_kernel.Base.{ℕ, ◌≡◌, ◌==◌, inl, inr, refl, arith, if◌then◌else◌, u8, none}
use os_kernel.Ports.{Ports}
use os_kernel.Pic.{pic1_data, pic2_data}
use os_kernel.Pic.Chip.{Chip, master, slave, ready, Registers, Rest, data_port, write_port, Is8259}
use os_kernel.Idt.{Idt, idt_init}
use os_kernel.Isr.{Frame, Kernel, Outcome, returned, halted, isr_common_handler}
use os_kernel.Vga.{Vga}
use os_kernel.Printf.Format.{Draws}
use os_kernel.Log.Message.{message, warn_level}
use os_kernel.Isr.Dispatch.{
  unhandled_pieces, isr_common_handler-IsFatal, isr_common_handler-timer, isr_common_handler-lost,
}

abbrev quiet : Rest
quiet = record { after_reset = λ x. x; other = λ v r. r }

-- two controllers, the master and the slave
abbrev Board : Type 0
Board = Registers × Registers

abbrev board : Ports Board
board = record {
  inb = λ port b.
      if port == pic1_data then u8 b.0.imr else if port == pic2_data then u8 b.1.imr else 0;
  outb =
      λ port v b. (write_port quiet master port (u8 v) b.0, write_port quiet slave port (u8 v) b.1);
}

abbrev board_chip : Chip → Board → Registers
board_chip master b = b.0
board_chip slave b = b.1

board-write :
    (c : Chip) (port v : ℕ) (b : Board)
    → board_chip c (board.outb port v b) ≡ write_port quiet c port (u8 v) (board_chip c b)
board-write master port v b = refl
board-write slave port v b = refl

board-read : (c : Chip) (b : Board) → board.inb (data_port c) b ≡ u8 (board_chip c b).imr
board-read master b = refl
board-read slave b = refl

abbrev board-Is8259 : Is8259 board
board-Is8259 = record {
  chip = board_chip;
  rest = quiet;
  write = board-write;
  read = λ c b h. board-read c b;
}

abbrev chip_serving : ℕ → Registers
chip_serving lines = record {
  stage = ready;
  vector = 32;
  cascade = 4;
  mode = 1;
  imr = 0xB8;
  in_service = lines;
}

abbrev kernel : Kernel Board
kernel = record {
  vga = record {
    screen = record { cells = λ i. 0; cursor_row = 3; cursor_col = 0; current_color_byte = 0x0F };
    vga_lock = record { locked = 0 };
    devices = (chip_serving 1, chip_serving 0);
  };
  ticks = 41;
}

abbrev no_driver : ℕ → Frame → Kernel Board → Outcome Board
no_driver address frame k = returned k

abbrev blank : Idt
blank = record {
  idt = λ v. record { offset_low = 0; selector = 0; reserved = 0; type_attr = 0; offset_high = 0 };
  idt_ptr = record { limit = 0; base = 0 };
  isr_handlers = λ v. none;
}

abbrev stub : ℕ → ℕ
stub k = 0x100000

-- the table after `idt_init`
abbrev installed : Idt
installed = idt_init stub stub 0x200000 blank

-- a frame with its vector, and 0 in every register
abbrev frame_of : ℕ → Frame
frame_of vector i = if i == 9 then vector else 0

isr_common_handler-IsFatal_example :
    (message : String) × (isr_common_handler board no_driver installed (frame_of 14) kernel
      ≡ halted message (frame_of 14))
isr_common_handler-IsFatal_example =
    isr_common_handler-IsFatal board no_driver stub stub 0x200000 blank (frame_of 14) kernel
      (inr (inr (inr (inr refl))))

isr_common_handler-timer_example :
    (k' : Kernel Board) × (isr_common_handler board no_driver installed (frame_of 32) kernel
      ≡ returned k')
    × (k'.ticks ≡ 42)
    × (k'.vga.devices.0 ≡ chip_serving 0)
    × (k'.vga.devices.1 ≡ chip_serving 0)
isr_common_handler-timer_example =
    isr_common_handler-timer board no_driver stub stub 0x200000 blank (frame_of 32) kernel
      board-Is8259 refl (refl, refl)

-- the keyboard's interrupt with 0 in `eax`
isr_common_handler-lost_example :
    (v : Vga Board) × (isr_common_handler board no_driver installed (frame_of 33) kernel
      ≡ returned (record kernel { vga = v }))
    × Draws (message 0x06 warn_level 41 (unhandled_pieces 0 33 0)) kernel.vga.screen v.screen
    × (v.vga_lock ≡ record { locked = 0 })
    × ((c : Chip) → board_chip c v.devices ≡ board_chip c kernel.vga.devices)
isr_common_handler-lost_example =
    isr_common_handler-lost board no_driver stub stub 0x200000 blank (frame_of 33) kernel
      board-Is8259 (omega arith) (omega arith) (inl (omega arith)) (omega arith) refl
