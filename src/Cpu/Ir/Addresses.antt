-- ===== src/Cpu/Ir/Addresses.antt =====
-- What decoding records of where an instruction stands.
use sustemu.Base.{ℕ, ◌≡◌, refl, ◌==◌, if-cases}
use sustemu.Word.{bits}
use sustemu.Cpu.State.{CpuState}
use sustemu.Cpu.Ir.Inst.{IrInst}
use sustemu.Cpu.Ir.Decode.{ir_decode, decode_group, decode_system, ir_fill_operands, reset_inst}

module _ (cpu : CpuState) (ir : IrInst) (raw : ℕ) where
  abbrev Stands : IrInst → Type 0
  Stands a = (a.pc ≡ ir.pc) × (a.snpc ≡ ir.snpc)

  decode_system-Stands : (funct3 : ℕ) → Stands (decode_system cpu ir raw funct3)
  unfolding ir_fill_operands decode_system
  decode_system-Stands funct3 =
      if-cases Stands (funct3 == 1) (λ e. (refl, refl))
        (λ e.
          if-cases Stands (funct3 == 2) (λ e. (refl, refl))
            (λ e.
              if-cases Stands (funct3 == 3) (λ e. (refl, refl))
                (λ e.
                  if-cases Stands (funct3 == 0)
                    (λ e.
                      if-cases Stands (raw == 0x0000_0073) (λ e. (refl, refl))
                        (λ e.
                          if-cases Stands (raw == 0x3020_0073) (λ e. (refl, refl))
                            (λ e.
                              if-cases Stands (raw == 0x0010_0073) (λ e. (refl, refl))
                                (λ e. (refl, refl)))))
                    (λ e. (refl, refl)))))

  decode_group-Stands :
      (opcode funct3 funct7 : ℕ) → Stands (decode_group cpu ir raw opcode funct3 funct7)
  unfolding decode_group ir_fill_operands
  decode_group-Stands opcode funct3 funct7 =
      if-cases Stands (opcode == 0x04) (λ e. (refl, refl))
        (λ e.
          if-cases Stands (opcode == 0x00) (λ e. (refl, refl))
            (λ e.
              if-cases Stands (opcode == 0x08) (λ e. (refl, refl))
                (λ e.
                  if-cases Stands (opcode == 0x18) (λ e. (refl, refl))
                    (λ e.
                      if-cases Stands (opcode == 0x1b) (λ e. (refl, refl))
                        (λ e.
                          if-cases Stands (opcode == 0x19) (λ e. (refl, refl))
                            (λ e.
                              if-cases Stands (opcode == 0x05) (λ e. (refl, refl))
                                (λ e.
                                  if-cases Stands (opcode == 0x0d) (λ e. (refl, refl))
                                    (λ e.
                                      if-cases Stands (opcode == 0x06) (λ e. (refl, refl))
                                        (λ e.
                                          if-cases Stands (opcode == 0x0c) (λ e. (refl, refl))
                                            (λ e.
                                              if-cases Stands (opcode == 0x0e) (λ e. (refl, refl))
                                                (λ e.
                                                  if-cases Stands (opcode == 0x1c)
                                                    (λ e. decode_system-Stands funct3)
                                                    (λ e.
                                                      if-cases Stands (opcode == 0x03)
                                                        (λ e. (refl, refl))
                                                        (λ e. (refl, refl))))))))))))))

pub ir_decode-pc :
    (cpu : CpuState) (raw pc snpc : ℕ) (ir : IrInst)
    → ((ir_decode cpu raw pc snpc ir).pc ≡ pc) × ((ir_decode cpu raw pc snpc ir).snpc ≡ snpc)
unfolding ir_decode reset_inst
ir_decode-pc cpu raw pc snpc ir =
    decode_group-Stands cpu (reset_inst raw pc snpc ir) raw (bits raw 6 2) (bits raw 14 12)
      (bits raw 31 25)
