-- ===== src/Lib.antt =====
-- The gas alarm firmware for the CH32V303RCT6 on RT-Thread: its own board code, bsp/, and the drivers
-- in libraries/hal_drivers/ that stand between the kernel's devices and the chip.
--
-- A real-time clock (bsp/src/bsp_rtc.c) turns the seconds counter into dates. The flash module
-- (bsp/src/bsp_flash.c) keeps seven logs of dated events in the last pages of the on-chip flash,
-- and a configuration page with two time limits and the alarm value. A host reads and sets these
-- over a serial line (bsp/src/bsp_hr.c), and a segment display (bsp/src/bsp_lcd_1621.c) shows
-- pressure, time and icons. A thread measures the supply voltage (bsp/src/bsp_vin_detection.c), another
-- one feeds the watchdog (bsp/src/bsp_wdg.c). The drivers below them are stateless but for their
-- registers: each operation is a function of the registers, or of the calls made so far.
--
--   Base        C casts, Boolean tests, the conditional, optional results, arrays as lists.
--   Rtc         bsp/src/bsp_rtc.c: RTC_Get is get, RTC_Set set, RTC_Get_Week get_week,
--               BSP_Get_RTC_Time get_time. Rtc.Calendar is the calendar they are held to, Rtc.Loops
--               and Rtc.Week their loops, Rtc.RoundTrip the results. Rtc.Device: drv_rtc.c.
--   Flash.Hal   the vendor's controller, a parameter: unlock, lock, erase a page, program a half
--               word, with their documented laws.
--   Flash.Layout  bsp/inc/bsp_flash.h: the areas. Flash.Driver: Flash_Read, Flash_Write, the page
--               erase and the locks.
--   Flash.Records  the logs: Flash_GetMaxIndex_Records is max_index, Flash_Write_Record write_record,
--               Flash_Read_Record read_record. Its children are the slots, the scan, the invariant
--               of a log (Log), the erase ahead (Room), appending, reading and clearing.
--   Flash.Query Flash_GetTotalRecord and Flash_GetRecord; Flash.Query.History holds a log to the
--               sequence of the events' times. Flash.Config: the configuration page and
--               BSP_Flash_Init.
--   Cpu         libcpu/cpu: rt_hw_stack_init is stack_init and rt_hw_context_switch_interrupt
--               context_switch_interrupt, of cpuport.c; rt_hw_context_switch, rt_hw_context_switch_to
--               and rt_hw_context_switch_exit of context_gcc.S, and SW_handler of interrupt_gcc.S, by
--               their names. Cpu.Frames and Cpu.Stored are the frames, Cpu.Resume the way back.
--   Hr.Frame    HR_GetFrameData, HR_GenerateRawFrame and HR_CheckSum. Hr.Process: HR_ProcessData,
--               one function for each case, and the body of the thread. Hr.Session:
--               the host's side, which sends a frame and parses the answer; Hr.Session.History goes from
--               the events to the host, Hr.Session.Times sets the clock and reads it later.
--   Gpio        drv_gpio.c: ch32_pin_get is pin_get, ch32_pin_attach_irq attach_irq,
--               ch32_pin_dettach_irq detach_irq; the number of ports is a parameter, and the
--               interrupt level, the same before and after, is left out. Gpio.Irq: the modes and
--               levels of pins, ch32_pin_irq_enable as irq_enable, and the interrupt handlers.
--   Can         drv_can.c: _can_send_rtmsg is send_rtmsg and _can_recv_rtmsg recv_rtmsg, on mailboxes
--               and FIFOs as registers. Can.Control: the baud table, _can_config and _can_control.
--               Can.Interrupts: the handlers and, in Switch, the commands for interrupts. The kernel's
--               answer to a report is the number of times that it calls _can_recvmsg.
--   Spi         drv_spi.c: ch32_spi_init is spi_init, spi_xfer xfer. The bus is a parameter, a record
--               of the polls and the register accesses on a state of its own.
--   Pwm         drv_pwm.c: ch32_pwm_device_set is device_set, with settings for its arithmetic.
--   Hwtimer     drv_hwtimer.c and drv_hwtimer.h.
--   Adc         drv_adc.c, with the converter as a parameter. Softi2c: drv_soft_i2c.c over pins that
--               are a parameter.
--   Wdt         drv_iwdt.c and bsp/src/bsp_wdg.c, with the vendor's calls as a log.
--   Vin         bsp/src/bsp_vin_detection.c: the average, and the interrupt and thread as steps.
--   Delay       the busy waits rt_hw_us_delay of board/board.c and ch32_udelay of drv_soft_spi.c,
--               over any sequence of reads of the counter; and the rt_hw_us_delay of drv_common.c.
--   Board       board/board.c: _SysTick_Config is systick_config, its call in rt_hw_board_init
--               start_timer; Board.Wait joins it with Delay.
--   Usart       drv_usart.c, with the registers as a parameter; Usart.Table: uart_hw_config.
--   Softspi     the lines of drv_soft_spi.c, over the pins of Softi2c. Dac: drv_dac.c.
--   Lcd.Screen  the buffer of the display: LCD_ShowSegment, LCD_ShowIcon, LCD_ShowNum,
--               LCD_ShowPressure, LCD_ShowTime. Lcd.Bus: the pins, as a sequence of events.
--
-- The state is passed on: a Chip is the flash with its locks and the interrupt level, a Clock the
-- counter and the static variables of the clock, a World both. none is undefined behaviour: a read
-- outside a table or behind the data of a frame, or a write behind the 32 bytes of hr_thread_entry.
-- Machine integers wrap where the source's types do.
--
-- The year loop has 200 rounds of fuel and the month loop 13: a 16-bit day number is below 180 years,
-- and after month 13 no days are left (Rtc.Total). A busy wait has as much fuel as there are cycles to
-- wait; a transfer has a round for each 65535 bytes; the wait for a conversion has its rounds as an
-- argument, since the source waits without a limit, and so have the waits for TC and for the
-- oscillator. All other loops are structural, over the rounds
-- that are left.
--
-- Not modelled: the kernel and the vendor's library (rt-thread, libraries/hal_libraries), which are
-- parameters or left out; the button, the LEDs and main, which hand tables of settings to libraries;
-- clock gates and the registration of devices;
-- the log output, but for the day name that it reads; the test commands of the shell; the start of
-- threads; the bytes that the ring buffer of the serial port holds, which are an argument. Values
-- in floating point are left out, but for a quotient that is exact.
-- The processor runs in machine mode with word addresses and without the floating-point registers, as
-- cpuport.h is configured; the three calls of SW_handler on the interrupt stack are a parameter that
-- changes registers and leaves the memory of the threads and of the switch alone, and what mret leaves
-- in MPP is a parameter.
-- A parameter malloc tells whether rt_malloc finds room.
pub mod Adc
pub mod Base
pub mod Board
pub mod Can
pub mod Cpu
pub mod Dac
pub mod Delay
pub mod Rtc
pub mod Flash
pub mod Hr
pub mod Lcd
pub mod Gpio
pub mod Softi2c
pub mod Softspi
pub mod Spi
pub mod Usart
pub mod Vin
pub mod Hwtimer
pub mod Pwm
pub mod Wdt
