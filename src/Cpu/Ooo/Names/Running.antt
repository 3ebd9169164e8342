-- ===== src/Cpu/Ooo/Names/Running.antt =====
-- Whole cycles, and runs from `ooo_init`.
use sustemu.Base.{
  Post, Post-bind, ℕ, ◌+◌, ◌%◌, ◌^◌, sym, subst, false, ◌==◌, if◌then◌else◌, ltb, not, ◌&&◌, ◌||◌,
  if-cases, arith,
}
use sustemu.Cpu.State.{CpuState}
use sustemu.Cpu.Ir.Inst.{IrInst}
use sustemu.Cpu.Ir.Decode.{
  ir_decode, decode_group, decode_system, ir_fill_operands, reset_inst, OperandType, type_i, type_u,
  type_s, type_j, type_r, type_b, type_n,
}
use sustemu.Cpu.Ooo.State.{Ooo, PipeReg}
use sustemu.Word.{bits}
use sustemu.Cpu.Bpred.Model.{BpredResult, bpred_predict}
use sustemu.Cpu.Bpred.Second.{bpred2_predict}
use sustemu.Cpu.Ooo.Rename.{ooo_stage_rn}
use sustemu.Cpu.Ooo.Wake.{ooo_stage_is}
use sustemu.Cpu.Ooo.Machine.{Machine, Config, with_ooo}
use sustemu.Cpu.Ooo.Commit.{Turn}
use sustemu.Cpu.Ooo.Cycle.{
  annotate, predict, fetch_slot, ooo_stage_if, ooo_stage_id, count_cycle, set_fetch, set_if,
  is_control_raw,
}
use sustemu.Cpu.Ooo.Stages.{IsKept}
use sustemu.Cpu.Ooo.Names.Frame.{front, IsConsistent, front-ooo_stage_is}
use sustemu.Cpu.Ooo.Names.Retiring.{Good, any, ooo_stage_commit-Good, ooo_drain_store_buf-Good}
use sustemu.Cpu.Ooo.Names.Executing.{ooo_unit_int-Good, ooo_unit_mul-Good}
use sustemu.Cpu.Ooo.Names.Loading.{ooo_unit_lsu-Good}
use sustemu.Memory.Vmem.{VirtualMemory, is_cached}
use sustemu.Cpu.Ooo.Names.Renaming.{RegsInFile, ooo_stage_rn-IsSound}

fill-RegsInFile :
    (cpu : CpuState) (ir : IrInst) (i : ℕ) (t : OperandType)
    → RegsInFile (ir_fill_operands cpu ir i t)
unfolding ir_fill_operands
fill-RegsInFile cpu ir i type_i = (omega arith, omega arith, tt)
fill-RegsInFile cpu ir i type_u = (omega arith, tt, tt)
fill-RegsInFile cpu ir i type_s = (tt, omega arith, omega arith)
fill-RegsInFile cpu ir i type_j = (omega arith, tt, tt)
fill-RegsInFile cpu ir i type_r = (omega arith, omega arith, omega arith)
fill-RegsInFile cpu ir i type_b = (tt, omega arith, omega arith)
fill-RegsInFile cpu ir i type_n = (tt, tt, tt)

decode_system-RegsInFile :
    (cpu : CpuState) (ir : IrInst) (raw f : ℕ)
    → RegsInFile ir
    → RegsInFile (decode_system cpu ir raw f)
unfolding decode_system
decode_system-RegsInFile cpu ir raw f h =
    if-cases P (f == 1) (λ e. fill-RegsInFile cpu ir raw type_i)
      (λ e.
        if-cases P (f == 2) (λ e. fill-RegsInFile cpu ir raw type_i)
          (λ e.
            if-cases P (f == 3) (λ e. fill-RegsInFile cpu ir raw type_i)
              (λ e.
                if-cases P (f == 0)
                  (λ e.
                    if-cases P (raw == 0x0000_0073) (λ e. fill-RegsInFile cpu ir raw type_n)
                      (λ e.
                        if-cases P (raw == 0x3020_0073) (λ e. fill-RegsInFile cpu ir raw type_n)
                          (λ e.
                            if-cases P (raw == 0x0010_0073) (λ e. fill-RegsInFile cpu ir raw type_n)
                              (λ e. fill-RegsInFile cpu ir raw type_n))))
                  (λ e. h))))
  where
    P : IrInst → Type 0
    P i = RegsInFile i

decode_group-RegsInFile :
    (cpu : CpuState) (ir : IrInst) (raw op f3 f7 : ℕ)
    → RegsInFile ir
    → RegsInFile (decode_group cpu ir raw op f3 f7)
unfolding decode_group
decode_group-RegsInFile cpu ir raw op f3 f7 h =
    if-cases P (op == 0x04) (λ e. fill type_i)
      (λ e.
        if-cases P (op == 0x00) (λ e. fill type_i)
          (λ e.
            if-cases P (op == 0x08) (λ e. fill type_s)
              (λ e.
                if-cases P (op == 0x18) (λ e. fill type_b)
                  (λ e.
                    if-cases P (op == 0x1b) (λ e. fill type_j)
                      (λ e.
                        if-cases P (op == 0x19) (λ e. fill type_i)
                          (λ e.
                            if-cases P (op == 0x05) (λ e. fill type_u)
                              (λ e.
                                if-cases P (op == 0x0d) (λ e. fill type_u)
                                  (λ e.
                                    if-cases P (op == 0x06) (λ e. fill type_i)
                                      (λ e.
                                        if-cases P (op == 0x0c) (λ e. fill type_r)
                                          (λ e.
                                            if-cases P (op == 0x0e) (λ e. fill type_r)
                                              (λ e.
                                                if-cases P (op == 0x1c)
                                                  (λ e. decode_system-RegsInFile cpu ir raw f3 h)
                                                  (λ e.
                                                    if-cases P (op == 0x03) (λ e. fill type_n)
                                                      (λ e. h)))))))))))))
  where
    P : IrInst → Type 0
    P i = RegsInFile i

    fill : (t : OperandType) → RegsInFile (ir_fill_operands cpu ir raw t)
    fill t = fill-RegsInFile cpu ir raw t

-- Whatever the word, the registers of a decoded instruction are among the 32.
pub ir_decode-RegsInFile :
    (cpu : CpuState) (raw pc snpc : ℕ) (ir : IrInst) → RegsInFile (ir_decode cpu raw pc snpc ir)
unfolding ir_decode reset_inst
ir_decode-RegsInFile cpu raw pc snpc ir =
    decode_group-RegsInFile cpu (reset_inst raw pc snpc ir) raw (bits raw 6 2) (bits raw 14 12)
      (bits raw 31 25) (tt, tt, tt)

module _ {S : Type 0} where
  set_if-Good :
      (s : ℕ) (ir : IrInst) (pc : ℕ) (m : Machine S)
      → Good m
      → RegsInFile ir
      → Good (with_ooo m (λ o. set_fetch pc (set_if s ir o)))
  set_if-Good s ir pc m g h = record {
    sound = g.sound;
    waiting = g.waiting;
    fetched = λ i. if-cases (λ (l : PipeReg). RegsInFile l.ir) (i == s) (λ e. h) (λ e. g.fetched i);
  }

  annotate-Good :
      (c : Config) (s pc raw : ℕ) (ir : IrInst) (m : Machine S)
      → Good m
      → RegsInFile ir
      → Good (annotate c s pc raw ir m).1
  unfolding annotate predict
  annotate-Good c s pc raw ir m g h =
      if-cases (λ (t : Turn S). Good t.1) ((c.bpred_mode || c.bpred2_mode) && is_control_raw raw)
        (λ e.
          if-cases (λ (r : BpredResult × Machine S). Good (noted r)) c.bpred2_mode
            (λ f. set_if-Good s (with_prediction second) (target second) m g h)
            (λ f. set_if-Good s (with_prediction first) (target first) m g h))
        (λ e.
          set_if-Good s (record ir { bp_predict_taken = false; bp_predicted_pc = pc + 4 }) (pc + 4)
            m g h)
    where
      first : BpredResult
      first = (bpred_predict m.bpred pc raw).0

      second : BpredResult
      second = bpred2_predict m.bpred2 pc

      target : BpredResult → ℕ
      target r = if r.taken && r.btb_hit then r.target else pc + 4

      with_prediction : BpredResult → IrInst
      with_prediction r = record ir {
        ras_top_snap = m.bpred.ras_top;
        ras_cnt_snap = m.bpred.ras_count;
        bp_predict_taken = r.taken;
        bp_predicted_pc = target r;
      }

      noted : BpredResult × Machine S → Machine S
      noted r = with_ooo r.1 (λ o. set_fetch (target r.0) (set_if s (with_prediction r.0) o))

module _ {S : Type 0} (vm : VirtualMemory S) where
  fetch_slot-Good :
      (c : Config) (s : ℕ) (m : Machine S)
      → Good m
      → Post (λ (t : Turn S). Good t.1) (fetch_slot vm c s m)
  unfolding fetch_slot
  fetch_slot-Good c s m g =
      if-cases (Post (λ (t : Turn S). Good t.1)) (not (is_cached (m.ooo.fetch_pc % 2 ^ 32)))
        (λ e. g)
        (λ e.
          Post-bind (λ x. Unit {0}) (λ (t : Turn S). Good t.1)
            (vm.vaddr_ifetch m.mem (m.ooo.fetch_pc % 2 ^ 32) 4) _ (any _)
            (λ r u.
              annotate-Good c s (m.ooo.fetch_pc % 2 ^ 32) (r.0 % 2 ^ 32) _ (record m { mem = r.1 })
                g
                (ir_decode-RegsInFile m.cpu (r.0 % 2 ^ 32) (m.ooo.fetch_pc % 2 ^ 32)
                  (m.ooo.fetch_pc % 2 ^ 32 + 4) (m.ooo.latch_if_id s).ir)))

  ooo_stage_if-Good : (c : Config) (m : Machine S) → Good m → Post Good (ooo_stage_if vm c m)
  unfolding ooo_stage_if
  ooo_stage_if-Good c m g =
      if-cases (Post Good) (m.ooo.latch_if_id 0).valid (λ e. g)
        (λ e.
          Post-bind (λ (t : Turn S). Good t.1) Good (fetch_slot vm c 0 m) _
            (fetch_slot-Good c 0 m g)
            (λ t h.
              if-cases (Post Good) t.0
                (λ f.
                  Post-bind (λ (t' : Turn S). Good t'.1) Good (fetch_slot vm c 1 t.1) _
                    (fetch_slot-Good c 1 t.1 h) (λ t' k. k))
                (λ f. h)))

  ooo_stage_id-IsConsistent :
      (o : Ooo) → IsConsistent (front o) → IsConsistent (front (ooo_stage_id o))
  unfolding ooo_stage_id
  ooo_stage_id-IsConsistent o g =
      if-cases (λ o'. IsConsistent (front o'))
        (not (o.latch_if_id 0).valid || (o.latch_id_rn 0).valid) (λ e. g)
        (λ e. record {
          sound = g.sound;
          waiting = λ s.
              if-cases (λ (l : PipeReg). RegsInFile l.ir) (ltb s 2) (λ f. g.fetched s)
                (λ f. g.waiting s);
          fetched = λ s.
              if-cases (λ (l : PipeReg). RegsInFile l.ir) (ltb s 2) (λ f. g.fetched s)
                (λ f. g.fetched s);
        })

  rename-IsConsistent :
      (o : Ooo) → IsConsistent (front o) → Post (λ o'. IsConsistent (front o')) (ooo_stage_rn o)
  rename-IsConsistent o g =
      let (o', e, k, f, fi) = ooo_stage_rn-IsSound o g.sound g.waiting in
      rw e (record { sound = k; waiting = f; fetched = rw fi g.fetched })

  -- Every stage keeps renaming sound.
  pub Good-IsKept : IsKept vm Good
  unfolding count_cycle
  Good-IsKept = record {
    drain = ooo_drain_store_buf-Good vm;
    commit = ooo_stage_commit-Good vm;
    clock = λ m g. g;
    int = ooo_unit_int-Good;
    mul = ooo_unit_mul-Good;
    lsu = ooo_unit_lsu-Good vm;
    rename = λ m g.
        rename-IsConsistent (ooo_stage_is m.ooo)
          (subst IsConsistent (sym (front-ooo_stage_is m.ooo)) g);
    decode = λ m g. ooo_stage_id-IsConsistent m.ooo g;
    fetch = ooo_stage_if-Good;
    count = λ m g. g;
  }
