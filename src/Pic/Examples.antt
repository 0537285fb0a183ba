-- ===== src/Pic/Examples.antt =====
-- The theorems on the interrupt controllers with two chips that follow their data sheet.
use os_kernel.Base.{ℕ, ◌≡◌, ◌^◌, refl, ◌==◌, if◌then◌else◌, u8}
use os_kernel.Ports.{Ports}
use os_kernel.Pic.{pic1_data, pic2_data, pic_init}
use os_kernel.Pic.Chip.{Chip, master, slave, ready, Registers, Rest, data_port, write_port, Is8259}
use os_kernel.Pic.Remap.{pic_init_lem}
use os_kernel.Pic.Masks.{IsReady}

-- two chips that keep what is in service when they are initialised
abbrev quiet : Rest
quiet = record { after_reset = λ x. x; other = λ v r. r }

record Board : Type 0 where
  pub first : Registers
  pub second : Registers

abbrev board : Ports Board
board = record {
  inb = λ port b.
      if port == pic1_data
      then u8 b.first.imr
      else if port == pic2_data
      then u8 b.second.imr
      else 0;
  outb = λ port v b. record {
    first = write_port quiet master port (u8 v) b.first;
    second = write_port quiet slave port (u8 v) b.second;
  };
}

abbrev board_chip : Chip → Board → Registers
board_chip master b = b.first
board_chip slave b = b.second

board-write :
    (c : Chip) (port v : ℕ) (b : Board)
    → board_chip c (board.outb port v b) ≡ write_port quiet c port (u8 v) (board_chip c b)
board-write master port v b = refl
board-write slave port v b = refl

board-read : (c : Chip) (b : Board) → board.inb (data_port c) b ≡ u8 (board_chip c b).imr
board-read master b = refl
board-read slave b = refl

abbrev board-Is8259 : Is8259 board
board-Is8259 = record {
  chip = board_chip;
  rest = quiet;
  write = board-write;
  read = λ c b h. board-read c b;
}

-- as the firmware leaves them, while line 9 is served
abbrev served : Board
served = record {
  first = record { stage = ready; vector = 8; cascade = 4; mode = 1; imr = 0xB8; in_service = 4 };
  second = record {
    stage = ready;
    vector = 0x70;
    cascade = 2;
    mode = 1;
    imr = 0x8F;
    in_service = 2;
  };
}

both-IsReady : IsReady board-Is8259 served
both-IsReady master = refl
both-IsReady slave = refl

pic_init_lem_example :
    ((pic_init board served).first ≡ record {
      stage = ready;
      vector = 32;
      cascade = 2 ^ 2;
      mode = 1;
      imr = 0xB8;
      in_service = 4;
    })
    × ((pic_init board served).second
        ≡ record { stage = ready; vector = 40; cascade = 2; mode = 1; imr = 0x8F; in_service = 2 })
pic_init_lem_example = pic_init_lem board-Is8259 served refl refl
