-- ===== src/Cpu/Ir/Inst.antt =====
-- `IR_Inst` and `IRInstType` of include/cpu/ir.h. An `int` that is -1 for "none" is an `Option`;
-- the mnemonic `name`, which only traces print, is left out.
use sustemu.Base.{ℕ, Bool, Option}

-- `IRInstType`
pub data IrInstType : Type 0 where
  itype_alu itype_load itype_store itype_branch itype_jal itype_jalr : IrInstType
  itype_lui itype_auipc itype_csr itype_system itype_fence itype_invalid : IrInstType

-- The functions `ir_exec_*`, which `exec_fn` points to.
pub data ExecFn : Type 0 where
  auipc lui add mul sub or xor and slt sltu sll srl sra div divu rem remu : ExecFn
  addw mulw subw sllw srlw sraw divw divuw remw remuw : ExecFn
  addi ori xori andi slti sltiu slli srli srai addiw slliw srliw sraiw : ExecFn
  jal jalr beq bne blt bge bltu bgeu : ExecFn
  ld lw lh lb lwu lhu lbu sd sw sh sb : ExecFn
  csrrw csrrs csrrc ecall mret ebreak fence inv : ExecFn

pub record IrInst : Type 0 where
  pub pc : ℕ
  pub snpc : ℕ
  pub raw : ℕ
  pub type : IrInstType
  pub rd : Option ℕ
  pub rs1 : Option ℕ
  pub rs2 : Option ℕ
  pub src1_val : ℕ
  pub src2_val : ℕ
  pub imm : ℕ
  pub mem_addr : ℕ
  pub mem_width : ℕ
  pub mem_sign : Bool
  pub result : ℕ
  pub dnpc : ℕ
  pub taken : Bool
  pub bp_predict_taken : Bool
  pub bp_predicted_pc : ℕ
  pub ras_top_snap : ℕ
  pub ras_cnt_snap : ℕ
  pub serializing : Bool
  pub fault : Bool
  pub phys_rd : Option ℕ
  pub rob_idx : Option ℕ
  pub cycles_rem : ℕ
  pub exec_fn : ExecFn
