-- ===== src/Router/Ids.antt =====
-- The ids that routers mint.
use voodoo.Prelude.{arith, ◌+◌, ◌<◌, ◌≡◌, sym, ap, ◌∙◌, ◌↔◌, true, false, ◌&&◌, ltb, if◌then◌else◌}
use voodoo.Router.Types.{Router}
use voodoo.Router.Endpoints.{mint_interface_id}

-- A router without the namespace bit and one with it, the counter of which is below 2 ^ 31, mint the
-- same id exactly where the counter of the first is that of the second and 2 ^ 31.
pub mint_interface_id_iff :
    (r s : Router)
    → r.namespace_bit ≡ false
    → s.namespace_bit ≡ true
    → s.next_id_value < 2147483648
    → ((mint_interface_id r).0 ≡ (mint_interface_id s).0)
      ↔ (r.next_id_value ≡ s.next_id_value + 2147483648)
unfolding mint_interface_id
mint_interface_id_iff r s h k bound =
    let first : (mint_interface_id r).0 ≡ r.next_id_value =
      ap
        (λ b.
          if b && ltb r.next_id_value 2147483648
          then r.next_id_value + 2147483648
          else r.next_id_value)
        h in
    let second : (mint_interface_id s).0 ≡ s.next_id_value + 2147483648 =
      ap
        (λ b.
          if b && ltb s.next_id_value 2147483648
          then s.next_id_value + 2147483648
          else s.next_id_value)
        k
      ∙ ground (arith, bound) in
    (λ e. sym first ∙ e ∙ second, λ e. first ∙ e ∙ sym second)
