-- ===== src/Flash/Config/EraseAll.antt =====
-- `BSP_Flash_EraseRecodrs`.
use mathlib.Core.Path.{refl}
use ch32v303rct6_rtt_mrs.Base.{◌+◌, arith}
use ch32v303rct6_rtt_mrs.Flash.Hal.{Chip, FlashHal}
use ch32v303rct6_rtt_mrs.Flash.Layout.{
  Record, alarm, alarm_rcy, fault, fault_rcy, power_down, power_on, sensor_end_of_life, pages,
  start_addr, config_addr, page_size,
}
use ch32v303rct6_rtt_mrs.Flash.Driver.Erase.{erase_at-ErasedPage}
use ch32v303rct6_rtt_mrs.Flash.Records.{erase_records}
use ch32v303rct6_rtt_mrs.Flash.Records.Clear.{ErasedArea, ErasedArea-join, erase_records-ErasedArea}
use ch32v303rct6_rtt_mrs.Flash.Config.{erase_config, erase_all}

module _ (hal : FlashHal) where
  -- BSP_Flash_EraseRecodrs erases everything from the first record area to the end of the
  -- configuration page and nothing outside; the interrupt level is back.
  pub erase_all-ErasedArea :
      (c : Chip) → ErasedArea (start_addr alarm) (config_addr + page_size) c (erase_all hal c)
  unfolding erase_all erase_config start_addr pages
  erase_all-ErasedArea c =
      let area = λ (r : Record) (d : Chip). erase_records-ErasedArea hal r d in
      let c1 = erase_records hal alarm c in
      let c2 = erase_records hal alarm_rcy c1 in
      let c3 = erase_records hal fault c2 in
      let c4 = erase_records hal fault_rcy c3 in
      let c5 = erase_records hal power_down c4 in
      let c6 = erase_records hal power_on c5 in
      let c7 = erase_records hal sensor_end_of_life c6 in
      let page = erase_at-ErasedPage hal config_addr c7 refl in
      let last : ErasedArea config_addr (config_addr + page_size) c7 (erase_config hal c7) =
        record { blank = page.blank; frame = page.frame; level = page.restored } in
      let j7 = ErasedArea-join (omega arith) (omega arith) (area sensor_end_of_life c6) last in
      let j6 = ErasedArea-join (omega arith) (omega arith) (area power_on c5) j7 in
      let j5 = ErasedArea-join (omega arith) (omega arith) (area power_down c4) j6 in
      let j4 = ErasedArea-join (omega arith) (omega arith) (area fault_rcy c3) j5 in
      let j3 = ErasedArea-join (omega arith) (omega arith) (area fault c2) j4 in
      let j2 = ErasedArea-join (omega arith) (omega arith) (area alarm_rcy c1) j3 in
      ErasedArea-join (omega arith) (omega arith) (area alarm c) j2
