-- ===== src/Drivers/Gfx/Font.antt =====
-- kernel/src/drivers/gfx/gop/gop.cpp, `kernel_font`: eight rows of eight bits for each character. Only
-- the first half is reached by a `char` that is not negative.
use micron.Base.{ℕ, List, [], ◌∷◌, ◌++◌}

-- The characters below 128.
abbrev pub low_glyphs : List ℕ
low_glyphs =
    0x0000000000000000 ∷ 0x0000000000000000 ∷ 0x000000FF00000000 ∷ 0x000000FF00FF0000
    ∷ 0x1818181818181818 ∷ 0x6C6C6C6C6C6C6C6C ∷ 0x181818F800000000 ∷ 0x6C6C6CEC0CFC0000
    ∷ 0x1818181F00000000 ∷ 0x6C6C6C6F607F0000 ∷ 0x000000F818181818 ∷ 0x000000FC0CEC6C6C
    ∷ 0x0000001F18181818 ∷ 0x0000007F606F6C6C ∷ 0x187E7EFFFF7E7E18 ∷ 0x0081818181818100
    ∷ 0x0000000000000000 ∷ 0x0000000000000000 ∷ 0x0000000000000000 ∷ 0x0000000000000000
    ∷ 0x0000000000000000 ∷ 0x0000000000000000 ∷ 0x0000000000000000 ∷ 0x0000000000000000
    ∷ 0x0000000000000000 ∷ 0x0000000000000000 ∷ 0x0000000000000000 ∷ 0x0000000000000000
    ∷ 0x0000000000000000 ∷ 0x0000000000000000 ∷ 0x0000000000000000 ∷ 0x0008000000000000
    ∷ 0x0000000000000000 ∷ 0x00180018183C3C18 ∷ 0x0000000000121236 ∷ 0x006C6CFE6CFE6C6C
    ∷ 0x00187ED07C16FC30 ∷ 0x0060660C18306606 ∷ 0x00DC66B61C36361C ∷ 0x0000000000181818
    ∷ 0x0030180C0C0C1830 ∷ 0x000C18303030180C ∷ 0x0000187E3C7E1800 ∷ 0x000018187E181800
    ∷ 0x0C18180000000000 ∷ 0x000000007E000000 ∷ 0x0018180000000000 ∷ 0x0000060C18306000
    ∷ 0x003C42464A52623C ∷ 0x007E101010101C10 ∷ 0x007E04081020423C ∷ 0x003C42403840423C
    ∷ 0x0020207E22242830 ∷ 0x003C4240403E027E ∷ 0x003C42423E020438 ∷ 0x000404081020407E
    ∷ 0x003C42423C42423C ∷ 0x001C20407C42423C ∷ 0x0018180018180000 ∷ 0x0C18180018180000
    ∷ 0x0030180C060C1830 ∷ 0x0000007E007E0000 ∷ 0x000C18306030180C ∷ 0x001800181830663C
    ∷ 0x003C06765676663C ∷ 0x0042427E42422418 ∷ 0x003E42423E42423E ∷ 0x003C42020202423C
    ∷ 0x001E22424242221E ∷ 0x007E02023E02027E ∷ 0x000202023E02027E ∷ 0x003C42427202423C
    ∷ 0x004242427E424242 ∷ 0x007C10101010107C ∷ 0x001C22202020207E ∷ 0x004222120E0A1222
    ∷ 0x007E020202020202 ∷ 0x0082828292AAC682 ∷ 0x00424262524A4642 ∷ 0x003C42424242423C
    ∷ 0x000202023E42423E ∷ 0x005C22424242423C ∷ 0x004242423E42423E ∷ 0x003C42403C02423C
    ∷ 0x001010101010107C ∷ 0x003C424242424242 ∷ 0x0018244242424242 ∷ 0x0044AAAA92828282
    ∷ 0x0042422418244242 ∷ 0x0010101038444444 ∷ 0x007E04081020407E ∷ 0x003E02020202023E
    ∷ 0x00006030180C0600 ∷ 0x007C40404040407C ∷ 0x000000000000663C ∷ 0xFF00000000000000
    ∷ 0x000000000030180C ∷ 0x007C427C403C0000 ∷ 0x003E4242423E0202 ∷ 0x003C4202423C0000
    ∷ 0x007C4242427C4040 ∷ 0x003C027E423C0000 ∷ 0x000404043E040438 ∷ 0x3C407C42427C0000
    ∷ 0x00424242423E0202 ∷ 0x003C1010101C0018 ∷ 0x0E101010101C0018 ∷ 0x0042221E22420200
    ∷ 0x003C101010101018 ∷ 0x00829292AA440000 ∷ 0x00424242423E0000 ∷ 0x003C4242423C0000
    ∷ 0x02023E42423E0000 ∷ 0xC0407C42427C0000 ∷ 0x00020202463A0000 ∷ 0x003E403C027C0000
    ∷ 0x00380404043E0404 ∷ 0x003C424242420000 ∷ 0x0018244242420000 ∷ 0x006C929292820000
    ∷ 0x0042241824420000 ∷ 0x3C407C4242420000 ∷ 0x007E0418207E0000 ∷ 0x003018180E181830
    ∷ 0x0018181818181818 ∷ 0x000C18187018180C ∷ 0x000000000062D68C ∷ 0xFFFFFFFFFFFFFFFF ∷ []

-- Those from 128 on.
abbrev pub high_glyphs : List ℕ
high_glyphs =
    0x1E30181E3303331E ∷ 0x007E333333003300 ∷ 0x001E033F331E0038 ∷ 0x00FC667C603CC37E
    ∷ 0x007E333E301E0033 ∷ 0x007E333E301E0007 ∷ 0x007E333E301E0C0C ∷ 0x3C603E03033E0000
    ∷ 0x003C067E663CC37E ∷ 0x001E033F331E0033 ∷ 0x001E033F331E0007 ∷ 0x001E0C0C0C0E0033
    ∷ 0x003C1818181C633E ∷ 0x001E0C0C0C0E0007 ∷ 0x00333F33331E0C33 ∷ 0x00333F331E000C0C
    ∷ 0x003F061E063F0038 ∷ 0x00FE33FE30FE0000 ∷ 0x007333337F33367C ∷ 0x001E33331E00331E
    ∷ 0x001E33331E003300 ∷ 0x001E33331E000700 ∷ 0x007E33333300331E ∷ 0x007E333333000700
    ∷ 0x1F303F3333003300 ∷ 0x001C3E63633E1C63 ∷ 0x001E333333330033 ∷ 0x18187E03037E1818
    ∷ 0x003F67060F26361C ∷ 0x000C3F0C3F1E3333 ∷ 0x70337B332F1B1B0F ∷ 0x0E1B18187E18D870
    ∷ 0x007E333E301E0038 ∷ 0x001E0C0C0C0E001C ∷ 0x001E33331E003800 ∷ 0x007E333333003800
    ∷ 0x003333331F001F00 ∷ 0x00333B3F3733003F ∷ 0x00007E007C36363C ∷ 0x00007E003C66663C
    ∷ 0x001E3303060C000C ∷ 0x000003033F000000 ∷ 0x000030303F000000 ∷ 0xF81973C67C1B3363
    ∷ 0xC0F9F3E6CF1B3363 ∷ 0x183C3C1818001800 ∷ 0x0000CC663366CC00 ∷ 0x00003366CC663300
    ∷ 0x1144114411441144 ∷ 0x55AA55AA55AA55AA ∷ 0xEEBBEEBBEEBBEEBB ∷ 0x1818181818181818
    ∷ 0x1818181F18181818 ∷ 0x1818181F181F1818 ∷ 0x6C6C6C6F6C6C6C6C ∷ 0x6C6C6C7F00000000
    ∷ 0x1818181F181F0000 ∷ 0x6C6C6C6F606F6C6C ∷ 0x6C6C6C6C6C6C6C6C ∷ 0x6C6C6C6F607F0000
    ∷ 0x0000007F606F6C6C ∷ 0x0000007F6C6C6C6C ∷ 0x0000001F181F1818 ∷ 0x1818181F00000000
    ∷ 0x000000F818181818 ∷ 0x000000FF18181818 ∷ 0x181818FF00000000 ∷ 0x181818F818181818
    ∷ 0x000000FF00000000 ∷ 0x181818FF18181818 ∷ 0x181818F818F81818 ∷ 0x6C6C6CEC6C6C6C6C
    ∷ 0x000000FC0CEC6C6C ∷ 0x6C6C6CEC0CFC0000 ∷ 0x000000FF00EF6C6C ∷ 0x6C6C6CEF00FF0000
    ∷ 0x6C6C6CEC0CEC6C6C ∷ 0x000000FF00FF0000 ∷ 0x6C6C6CEF00EF6C6C ∷ 0x000000FF00FF1818
    ∷ 0x000000FF6C6C6C6C ∷ 0x181818FF00FF0000 ∷ 0x6C6C6CFF00000000 ∷ 0x000000FC6C6C6C6C
    ∷ 0x000000F818F81818 ∷ 0x181818F818F80000 ∷ 0x6C6C6CFC00000000 ∷ 0x6C6C6CEF6C6C6C6C
    ∷ 0x181818FF00FF1818 ∷ 0x0000001F18181818 ∷ 0x181818F800000000 ∷ 0xFFFFFFFFFFFFFFFF
    ∷ 0xFFFFFFFF00000000 ∷ 0x0F0F0F0F0F0F0F0F ∷ 0xF0F0F0F0F0F0F0F0 ∷ 0x00000000FFFFFFFF
    ∷ 0x006E3B133B6E0000 ∷ 0x03031F331F331E00 ∷ 0x0003030303637F00 ∷ 0x0036363636367F00
    ∷ 0x007F660C180C667F ∷ 0x001E3333337E0000 ∷ 0x03063E6666666600 ∷ 0x00181818183B6E00
    ∷ 0x3F0C1E33331E0C3F ∷ 0x001C36637F63361C ∷ 0x007736366363361C ∷ 0x001E33333E180C38
    ∷ 0x00007EDBDB7E0000 ∷ 0x03067EDBDB7E3060 ∷ 0x003C06033F03063C ∷ 0x003333333333331E
    ∷ 0x00003F003F003F00 ∷ 0x003F000C0C3F0C0C ∷ 0x003F00060C180C06 ∷ 0x003F00180C060C18
    ∷ 0x1818181818D8D870 ∷ 0x0E1B1B1818181818 ∷ 0x000C0C003F000C0C ∷ 0x0000394E00394E00
    ∷ 0x000000001C36361C ∷ 0x0000001818000000 ∷ 0x0000001800000000 ∷ 0x383C3637303030F0
    ∷ 0x000000363636361E ∷ 0x0000003E061C301E ∷ 0x00003C3C3C3C0000 ∷ 0xFFFFFFFFFFFFFFFF ∷ []

abbrev pub kernel_font : List ℕ
kernel_font = low_glyphs ++ high_glyphs
