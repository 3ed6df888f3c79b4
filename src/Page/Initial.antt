-- ===== src/Page/Initial.antt =====
-- A freshly initialised block.
use index_research.Prelude.{ℕ, ◌≤◌, ◌<◌, ◌≡◌, ◌∙◌, arith, ◌==◌, if◌then◌else◌}
use index_research.Prelude.Memory.{Mem, IsMem, store}
use index_research.Util.Codec.{set_int}
use index_research.Util.Codec.Laws.{get_int_ext, get_int-set_int, set_int_frame, set_int-IsMem}
use index_research.Page.{filled_size, get_kv_last_pos}
use index_research.Page.View.{IsPage}
use index_research.Page.Update.{init_current_block}

module _ (b : Mem) (size : ℕ) (small : size < 65536) (header : 6 ≤ size) where
  emptied : Mem
  emptied = store (set_int b 1 0) 5 0

  init_count : filled_size (init_current_block b size) ≡ 0
  unfolding init_current_block filled_size emptied
  init_count =
      get_int_ext _ (set_int b 1 0) 1 1 (set_int_frame emptied 3 _ 1 (omega arith))
        (set_int_frame emptied 3 _ 2 (omega arith))
      ∙ get_int-set_int b 1 0

  init_last : get_kv_last_pos (init_current_block b size) ≡ size
  unfolding init_current_block get_kv_last_pos
  init_last = get_int-set_int _ 3 (if size == 0 then 65535 else size) ∙ ground arith

  init_bytes : IsMem b → IsMem (init_current_block b size)
  unfolding init_current_block emptied
  init_bytes h = set_int-IsMem emptied 3 _ (λ i. ground (arith, set_int-IsMem b 1 0 h i))

  -- Whatever the memory held, an initialised block is well formed and holds no record.
  pub init_current_block-IsPage :
      IsMem b
      → IsPage size (init_current_block b size) × (filled_size (init_current_block b size) ≡ 0)
  init_current_block-IsPage h = (
    record {
      bytes = init_bytes h;
      small = small;
      room = omega (arith, init_count, init_last);
      top = omega (arith, init_last);
      low = λ i k. absurd (omega (arith, init_count));
      high = λ i k. absurd (omega (arith, init_count));
      apart = λ i j k l. absurd (omega (arith, init_count));
      sorted = λ i j k l. absurd (omega (arith, init_count));
    },
    init_count,
  )
